-- ===== src/MyFs/Clients/Buffer.antt =====
-- course_design/test1.c, course_design/test1rdonly.c: the buffer that a program clears, reads into and
-- prints as a string.
use grade15_1linux.Common.{
  take-append_le, ℕ, zero, suc, ◌<◌, ◌≡◌, ◌∙◌, refl, ap, arith, false, none, some, [], ◌∷◌, ◌++◌,
  Bytes, length, take, drop, replicate, text, strlen, NoNul, ◌==◌, length-append, strlen-le-length,
}
use grade15_1linux.MyFs.Clients.{formatted}

-- A NUL behind some bytes ends their string.
pub strlen-nul : (s r : Bytes) → strlen (s ++ 0 ∷ r) ≡ strlen s
unfolding strlen
strlen-nul [] r = refl
strlen-nul (c ∷ s) r = ground (arith, strlen-nul s r)

pub strlen-NoNul : (s : Bytes) → NoNul s → strlen s ≡ length s
unfolding strlen
strlen-NoNul [] raw = refl
strlen-NoNul (c ∷ s) raw = ground (arith, strlen-NoNul s raw.1)

pub formatted-nul : (s r : Bytes) → formatted (s ++ 0 ∷ r) ≡ some (text s)
unfolding formatted
formatted-nul s r =
    let same = strlen-nul s r in
    let short : (strlen (s ++ 0 ∷ r) == length (s ++ 0 ∷ r)) ≡ false =
      ground (arith, same, strlen-le-length s, length-append s (0 ∷ r)) in
    rw short (
      ap some (
        ap (λ n. take n (s ++ 0 ∷ r)) same
        ∙ take-append_le (strlen s) s (0 ∷ r) (strlen-le-length s)))

pub formatted-NoNul : (s : Bytes) → NoNul s → formatted s ≡ none
unfolding formatted
formatted-NoNul s raw = rw (strlen-NoNul s raw) (ground arith)

pub zeros : (n k : ℕ) → n < k → (r : Bytes) × (drop n (replicate k (let z : ℕ = 0 in z)) ≡ 0 ∷ r)
zeros n zero h = absurd (omega arith)
zeros zero (suc k) h = (replicate k 0, refl)
zeros (suc n) (suc k) h = zeros n k (omega arith)
