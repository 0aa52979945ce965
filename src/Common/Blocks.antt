-- ===== src/Common/Blocks.antt =====
-- Blocks of memory as lists of bytes: slices, copies into a block, and C strings.
use Prim.Native.Nat.{ℕ, zero, suc, ◌+◌, ◌-◌, ◌<◌, ◌≤◌}
use mathlib.Core.Path.{◌≡◌, refl, ap, ◌∙◌}
use mathlib.Core.Logic.{◌≢◌, inl, inr}
use mathlib.Core.Option.{some}
use mathlib.Core.List.{List, [], ◌∷◌, ◌++◌}
use native.Mathlib.Omega.{arith}
use grade15_1linux.Common.Tests.{◌==◌, if◌then◌else◌, Bool-cases, ==_iff}
use grade15_1linux.Common.Lists.{
  length, take, drop, get_elem?, length-append, length-take, length-drop, take-append, drop-append,
  get_elem?-drop, set,
}

abbrev pub Bytes : Type 0
Bytes = List ℕ

-- `n` bytes of a block from an offset on; the caller has checked the range.
abbrev pub slice : ℕ → ℕ → Bytes → Bytes
slice off n b = take n (drop off b)

-- The block with `src` copied over it at an offset.
abbrev pub splice : ℕ → Bytes → Bytes → Bytes
splice off src b = take off b ++ (src ++ drop (off + length src) b)

-- The length of the C string at the start of a block (of the whole block if it has no NUL).
unfoldable pub strlen : Bytes → ℕ
strlen [] = 0
strlen (c ∷ cs) = if c == 0 then 0 else suc (strlen cs)

module _ {ℓ} {A : Type ℓ} where
  pub get_elem?-append_left :
      (xs ys : List A) (i : ℕ) → i < length xs → get_elem? (xs ++ ys) i ≡ get_elem? xs i
  get_elem?-append_left [] ys i h = absurd (omega arith)
  get_elem?-append_left (x ∷ xs) ys zero h = refl
  get_elem?-append_left (x ∷ xs) ys (suc i) h = get_elem?-append_left xs ys i (omega arith)

  pub get_elem?-append_right :
      (xs ys : List A) (i j : ℕ) → i ≡ length xs + j → get_elem? (xs ++ ys) i ≡ get_elem? ys j
  get_elem?-append_right [] ys i j e = ap (λ k. get_elem? ys k) (omega arith)
  get_elem?-append_right (x ∷ xs) ys zero j e = absurd (omega arith)
  get_elem?-append_right (x ∷ xs) ys (suc i) j e = get_elem?-append_right xs ys i j (omega arith)

  pub get_elem?-take :
      (n : ℕ) (xs : List A) (i : ℕ) → i < n → get_elem? (take n xs) i ≡ get_elem? xs i
  get_elem?-take zero xs i h = absurd (omega arith)
  get_elem?-take (suc n) [] i h = refl
  get_elem?-take (suc n) (x ∷ xs) zero h = refl
  get_elem?-take (suc n) (x ∷ xs) (suc i) h = get_elem?-take n xs i (omega arith)

pub length-splice :
    (off : ℕ) (src b : Bytes) → off + length src ≤ length b → length (splice off src b) ≡ length b
length-splice off src b h = omega (
  arith,
  length-append (take off b) (src ++ drop (off + length src) b),
  length-append src (drop (off + length src) b),
  length-take off b,
  length-drop (off + length src) b,
)

-- What was copied into a block is read back.
pub slice-splice :
    (off : ℕ) (src b : Bytes)
    → off + length src ≤ length b
    → slice off (length src) (splice off src b) ≡ src
slice-splice off src b h =
    ap (take (length src)) (
      drop-append off (take off b) (src ++ drop (off + length src) b)
        (omega (arith, length-take off b)))
    ∙ take-append (length src) src (drop (off + length src) b) refl

-- The bytes before and behind a copy stay.
pub get_elem?-splice_before :
    (off : ℕ) (src b : Bytes) (i : ℕ)
    → off + length src ≤ length b
    → i < off
    → get_elem? (splice off src b) i ≡ get_elem? b i
get_elem?-splice_before off src b i h lt =
    get_elem?-append_left (take off b) (src ++ drop (off + length src) b) i
      (omega (arith, length-take off b))
    ∙ get_elem?-take off b i lt

pub get_elem?-splice_after :
    (off : ℕ) (src b : Bytes) (i : ℕ)
    → off + length src ≤ length b
    → off + length src ≤ i
    → get_elem? (splice off src b) i ≡ get_elem? b i
get_elem?-splice_after off src b i h le =
    get_elem?-append_right (take off b) (src ++ drop (off + length src) b) i (i - off)
      (omega (arith, length-take off b))
    ∙ get_elem?-append_right src (drop (off + length src) b) (i - off) (i - (off + length src))
        (omega arith)
    ∙ get_elem?-drop (off + length src) (i - (off + length src)) i b (omega arith)

pub length-slice : (off n : ℕ) (b : Bytes) → off + n ≤ length b → length (slice off n b) ≡ n
length-slice off n b h = omega (arith, length-take n (drop off b), length-drop off b)

-- Bytes that are not NUL.
abbrev pub NoNul : Bytes → Type 0
NoNul [] = Unit {0}
NoNul (c ∷ cs) = (c ≢ 0) × NoNul cs

pub strlen-append_nul : (s r : Bytes) → NoNul s → strlen (s ++ (0 ∷ r)) ≡ length s
unfolding strlen
strlen-append_nul [] r h = refl
strlen-append_nul (c ∷ s) r h = ground (arith, strlen-append_nul s r h.1)

-- A NUL at index `i` bounds the string.
pub strlen-le : (b : Bytes) (i : ℕ) → get_elem? b i ≡ some 0 → strlen b ≤ i
unfolding strlen
strlen-le [] i h = omega arith
strlen-le (c ∷ b) zero h = ground arith
strlen-le (c ∷ b) (suc i) h = ground (arith, strlen-le b i h)

pub strlen-le-length : (b : Bytes) → strlen b ≤ length b
unfolding strlen
strlen-le-length [] = omega arith
strlen-le-length (c ∷ b) = ground (arith, strlen-le-length b)

-- The C string at the start of a block.
abbrev pub text : Bytes → Bytes
text b = take (strlen b) b

-- A NUL written behind the bytes `xs` ends the string that they hold.
pub text-set_nul :
    (xs b : Bytes) (n : ℕ)
    → n ≡ length xs
    → n < length (xs ++ b)
    → text (set (xs ++ b) n 0) ≡ text xs
unfolding strlen
text-set_nul [] [] n e h = absurd (omega arith)
text-set_nul [] (y ∷ b) zero e h = refl
text-set_nul [] (y ∷ b) (suc n) e h = absurd (omega arith)
text-set_nul (x ∷ xs) b zero e h = absurd (omega arith)
text-set_nul (x ∷ xs) b (suc n) e h = elim (Bool-cases (x == 0)) [
  | inl nul ↦ rw nul
  | inr more ↦ rw more (ap (λ ys. x ∷ ys) (text-set_nul xs b n (omega arith) (omega arith)))
]

pub text_of_zero_free : (s : Bytes) → NoNul s → text s ≡ s
unfolding strlen
text_of_zero_free [] h = refl
text_of_zero_free (c ∷ s) h = elim (Bool-cases (c == 0)) [
  | inl nul ↦ absurd (h.0 ((==_iff c 0).0 nul))
  | inr more ↦ rw more (ap (λ ys. c ∷ ys) (text_of_zero_free s h.1))
]
