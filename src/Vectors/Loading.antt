-- ===== src/Vectors/Loading.antt =====
-- exp2/exp2.2.cpp: what the 26 vectors hold when the program ends.
use grade15_1linux.Common.{
  ℕ, zero, suc, ◌+◌, ◌≤◌, ◌<◌, ◌≡◌, ◌∙◌, refl, ap, sym, subst, arith, Bool, true, false, Bool-cases,
  if◌then◌else◌, ltb, ltb→lt, ltb→le, List, [], ◌∷◌, ◌++◌, replicate, inl, inr,
}
use grade15_1linux.Vectors.{Outcome, loaded, thrown, push_all, load_loop, main}

-- The numbers below `n`, in order.
abbrev pub numbers : ℕ → List ℕ
numbers zero = []
numbers (suc n) = numbers n ++ n ∷ []

-- The vectors behind one round, from `m` vectors that all hold `xs`.
pub data Pushed (timer m : ℕ) (xs : List ℕ) : Bool → List (List ℕ) → Type 0 where
  all_pushed :
      {vs : List (List ℕ)} → vs ≡ replicate m (xs ++ timer ∷ []) → Pushed timer m xs false vs
  some_pushed :
      {vs : List (List ℕ)} (i j : ℕ)
      → i + suc j ≡ m
      → vs ≡ replicate i (xs ++ timer ∷ []) ++ replicate (suc j) xs
      → Pushed timer m xs true vs

-- How the program ends: all the vectors hold the numbers of all the rounds, or an exception ends it in
-- some round `t`, with the first vectors one number longer than the others.
pub data Loaded (rounds m : ℕ) : Outcome → Type 0 where
  all_loaded :
      {vs : List (List ℕ)} → vs ≡ replicate m (numbers rounds) → Loaded rounds m (loaded vs)
  out_of_memory :
      {vs : List (List ℕ)} (t i j : ℕ)
      → t < rounds
      → i + suc j ≡ m
      → vs ≡ replicate i (numbers (suc t)) ++ replicate (suc j) (numbers t)
      → Loaded rounds m (thrown vs)

module _ {K : Type 0} (memory : List ℕ → K → Bool × K) where
  -- One vector more in front.
  Pushed-more :
      (timer m : ℕ) (xs : List ℕ) (threw : Bool) (vs : List (List ℕ))
      → Pushed timer m xs threw vs
      → Pushed timer (suc m) xs threw ((xs ++ timer ∷ []) ∷ vs)
  Pushed-more timer m xs false vs (all_pushed e) = all_pushed (ap (λ ws. (xs ++ timer ∷ []) ∷ ws) e)
  Pushed-more timer m xs true vs (some_pushed i j split e) =
      some_pushed (suc i) j (omega (arith, split)) (ap (λ ws. (xs ++ timer ∷ []) ∷ ws) e)

  push_all-Pushed :
      (timer m : ℕ) (xs : List ℕ) (k : K)
      → let r = push_all memory timer (replicate m xs) k in Pushed timer m xs r.0 r.1
  unfolding push_all
  push_all-Pushed timer zero xs k = all_pushed refl
  push_all-Pushed timer (suc m) xs k = elim (Bool-cases (memory xs k).0) [
    | inl granted ↦
        let r = push_all memory timer (replicate m xs) (memory xs k).1 in
        rw (granted, push_all)
          (Pushed-more timer m xs r.0 r.1 (push_all-Pushed timer m xs (memory xs k).1))
    | inr refused ↦ rw (refused, push_all) (some_pushed 0 m (omega arith) refl)
  ]

  next_numbers : (n : ℕ) → numbers n ++ n ∷ [] ≡ numbers (n + 1)
  next_numbers n = let next : suc n ≡ n + 1 = omega arith in ap numbers next

  -- A round of the loop, if the rounds behind it are right.
  round-Loaded :
      (rounds m timer : ℕ) (threw : Bool) (vs : List (List ℕ)) (rest : Outcome)
      → timer < rounds
      → Pushed timer m (numbers timer) threw vs
      → (vs ≡ replicate m (numbers (timer + 1)) → Loaded rounds m rest)
      → Loaded rounds m (if threw then thrown vs else rest)
  round-Loaded rounds m timer false vs rest more (all_pushed e) next =
      next (e ∙ ap (replicate m) (next_numbers timer))
  round-Loaded rounds m timer true vs rest more (some_pushed i j split e) next =
      out_of_memory timer i j more split e

  load_loop-Loaded :
      (rounds m fuel timer : ℕ) (k : K)
      → timer ≤ rounds
      → rounds < fuel + timer
      → Loaded rounds m (load_loop memory rounds fuel timer (replicate m (numbers timer)) k)
  unfolding load_loop
  load_loop-Loaded rounds m zero timer k low enough = absurd (omega arith)
  load_loop-Loaded rounds m (suc fuel) timer k low enough =
      let vs = replicate m (numbers timer) in
      let r = push_all memory timer vs k in
      elim (Bool-cases (ltb timer rounds)) [
        | inl more ↦
            rw (more, load_loop)
              (round-Loaded rounds m timer r.0 r.1
                (load_loop memory rounds fuel (timer + 1) r.1 r.2) (ltb→lt timer rounds more)
                (push_all-Pushed timer m (numbers timer) k)
                (λ e.
                  subst (λ ws. Loaded rounds m (load_loop memory rounds fuel (timer + 1) ws r.2))
                    (sym e)
                    (load_loop-Loaded rounds m fuel (timer + 1) r.2
                      (omega (arith, ltb→lt timer rounds more)) (omega (arith, enough)))))
        | inr last ↦
            let end : timer ≡ rounds = omega (arith, ltb→le timer rounds last, low) in
            rw (last, load_loop) (all_loaded (ap (λ n. replicate m (numbers n)) end))
      ]

  -- With fuel for more than its rounds the program ends, and in one of two ways. Behind its loop each
  -- of the 26 vectors holds the numbers below the number of rounds, in order. An exception for want of
  -- memory ends it in some round `t`: the first of the vectors, fewer than all, then hold the numbers up to
  -- `t`, and the others those below `t`.
  pub main-Loaded :
      (rounds fuel : ℕ) (k : K) → rounds < fuel → Loaded rounds 26 (main memory rounds fuel k)
  unfolding main
  main-Loaded rounds fuel k enough =
      load_loop-Loaded rounds 26 fuel 0 k (omega arith) (omega (arith, enough))
