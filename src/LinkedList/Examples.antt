-- ===== src/LinkedList/Examples.antt =====
-- The program of exp2/exp2.3.cpp on an allocator that counts, and instances of the theorems.
use Prim.Native.String.{String}
use grade15_1linux.Common.{
  ℕ, suc, ◌≡◌, ◌≢◌, refl, ◌&&◌, ltb, arith, Option, none, some, List, [], ◌∷◌,
}
use grade15_1linux.LinkedList.{done, running, Heap, State, place, main}
use grade15_1linux.LinkedList.Chain.{node, MallocLaws}
use grade15_1linux.LinkedList.Words.{main_prints, main_endless}

-- Its own state is the number of nodes; memory behind them is free.
unfoldable malloc : Heap ℕ → ℕ × Heap ℕ
malloc h = (
  suc h.kernel,
  record { nodes = place h.nodes (suc h.kernel) (node none 77); kernel = suc h.kernel },
)

malloc-MallocLaws : MallocLaws malloc
unfolding malloc
malloc-MallocLaws = record {
  used = λ k a. ltb 0 a && ltb a (suc k);
  fresh = λ h ok. ground arith;
  taken = λ h a ok. ground arith;
  content = λ h ok. (77, refl);
}

nonzero : (h : Heap ℕ) → (malloc h).0 ≢ 0
unfolding malloc
nonzero h = λ e. omega (arith, e)

-- The program's start, with an input.
abbrev before : List String → State ℕ
before input = record {
  heap = record { nodes = λ a. none; kernel = 0 };
  input = input;
  output = [];
}

words_printed :
    (s' : State ℕ) × (main malloc some 3 (before ("b" ∷ "a" ∷ "114514" ∷ "c" ∷ [])) ≡ done (tt, s'))
    × (s'.output ≡ "b" ∷ "a" ∷ [])
    × (s'.input ≡ "c" ∷ [])
words_printed =
    main_prints malloc some malloc-MallocLaws nonzero (λ w. refl) ("b" ∷ "a" ∷ []) ("c" ∷ []) 3
      (before ("b" ∷ "a" ∷ "114514" ∷ "c" ∷ [])) (λ a free. refl) (refl, (refl, tt)) refl
      (omega arith)

endless : main malloc some 5 (before ("b" ∷ "a" ∷ [])) ≡ running
endless =
    main_endless malloc some malloc-MallocLaws nonzero (λ w. refl) 5 (before ("b" ∷ "a" ∷ []))
      (λ a free. refl) (refl, (refl, tt))

-- No assignment to a string that was never constructed works.
abbrev strict : String → Option String
strict word = none
