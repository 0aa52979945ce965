-- ===== src/MyFs/Examples/Names.antt =====
-- Numbers for the names in a directory of course_design/myfs_kernel.c, for a small kernel whose entries
-- are numbers: different directories or names have different ones.
use Prim.Native.Nat.{suc}
use Prim.Native.Char.{code}
use Prim.Native.String.{String, [], ◌∷◌}
use text.Mathlib.TextEquality.{Char-path}
use grade15_1linux.Common.{ℕ, ◌+◌, ◌*◌, ◌<◌, ◌≡◌, refl, ap, ap₂, arith}

unfoldable pub pair : ℕ → ℕ → ℕ
pair a b = (a + b) * (a + b) + a

unfoldable pub number : String → ℕ
unfolding pair
number [] = 0
number (c ∷ s) = suc (pair (code c) (number s))

squares_apart : (s t : ℕ) → s < t → s * s + s < t * t
squares_apart s t h = grind (arith, h)

sums_equal : (a b c d : ℕ) → pair a b ≡ pair c d → a + b ≡ c + d
unfolding pair
sums_equal a b c d e =
    let up : a + b < c + d → ⊥ = λ h. omega (arith, squares_apart (a + b) (c + d) h) in
    let down : c + d < a + b → ⊥ = λ h. omega (arith, squares_apart (c + d) (a + b) h) in
    ground arith

pub pair_inj : (a b c d : ℕ) → pair a b ≡ pair c d → (a ≡ c) × (b ≡ d)
unfolding pair
pair_inj a b c d e =
    let same = sums_equal a b c d e in
    let first : a ≡ c = omega (arith, ap (λ n. n * n) same) in (first, omega arith)

pub number_inj : (s t : String) → number s ≡ number t → s ≡ t
unfolding number
number_inj [] [] e = refl
number_inj [] (d ∷ t) e = absurd (omega (arith, e))
number_inj (c ∷ s) [] e = absurd (omega (arith, e))
number_inj (c ∷ s) (d ∷ t) e =
    let (first, rest) = pair_inj (code c) (number s) (code d) (number t) (omega (arith, e)) in
    ap₂ ◌∷◌ (Char-path c d first) (number_inj s t rest)
