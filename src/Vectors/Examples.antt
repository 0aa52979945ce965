-- ===== src/Vectors/Examples.antt =====
-- Runs of exp2/exp2.2.cpp with fewer rounds, and an instance of the theorem.
use grade15_1linux.Common.{ℕ, ◌-◌, ◌≡◌, refl, arith, Bool, ltb, List, [], ◌∷◌, ◌++◌, replicate}
use grade15_1linux.Vectors.{loaded, thrown, push_all, load_loop, main}
use grade15_1linux.Vectors.Loading.{Loaded, main-Loaded}

-- A memory for so many numbers.
abbrev room : List ℕ → ℕ → Bool × ℕ
room v n = (ltb 0 n, n - 1)

two_rounds : main room 2 3 100 ≡ loaded (replicate 26 (0 ∷ 1 ∷ []))
unfolding main load_loop push_all
two_rounds = refl

-- In the second round, the 29th number finds no memory.
half_a_round : main room 2 3 28 ≡ thrown (replicate 2 (0 ∷ 1 ∷ []) ++ replicate 24 (0 ∷ []))
unfolding main load_loop push_all
half_a_round = refl

main-Loaded_example : Loaded 2 26 (main room 2 3 28)
main-Loaded_example = main-Loaded room 2 3 28 (omega arith)
