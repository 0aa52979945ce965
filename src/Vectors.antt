-- ===== src/Vectors.antt =====
-- exp2/exp2.2.cpp: 26 vectors, to each of which a loop appends its counter 200000000 times, or until
-- there is no memory. Loading is what they hold at the end.
pub mod Loading
mod Examples
use grade15_1linux.Common.{
  ℕ, zero, suc, ◌+◌, Bool, true, false, if◌then◌else◌, ltb, List, [], ◌∷◌, ◌++◌, replicate,
}

-- The end of `main`: behind the loop, where the message is printed, or by an exception that nobody
-- catches; or not within the fuel. With the vectors, from `a` to `z`.
pub data Outcome : Type 0 where
  loaded thrown : List (List ℕ) → Outcome
  running : Outcome

-- `memory` tells whether the next `push_back` to a vector gets its memory.
module _ {K : Type 0} (memory : List ℕ → K → Bool × K) where
  -- The body of the loop: whether a `push_back` has thrown, and the vectors; one that throws changes
  -- nothing.
  unfoldable pub push_all : ℕ → List (List ℕ) → K → Bool × List (List ℕ) × K
  push_all timer [] k = (false, [], k)
  push_all timer (v ∷ vs) k =
      let (granted, k1) = memory v k in
      let (threw, vs', k2) = push_all timer vs k1 in
      if granted then (threw, (v ++ timer ∷ []) ∷ vs', k2) else (true, v ∷ vs, k1)

  unfoldable pub load_loop : ℕ → ℕ → ℕ → List (List ℕ) → K → Outcome
  unfolding push_all
  load_loop rounds zero timer vs k = running
  load_loop rounds (suc fuel) timer vs k =
      let (threw, vs', k') = push_all timer vs k in
      let rest = load_loop rounds fuel (timer + 1) vs' k' in
      if ltb timer rounds then (if threw then thrown vs' else rest) else loaded vs

  -- The program with a number of rounds, which is 200000000 in the source.
  unfoldable pub main : ℕ → ℕ → K → Outcome
  unfolding load_loop
  main rounds fuel = load_loop rounds fuel 0 (replicate 26 [])
