-- ===== src/Join/Ending.antt =====
-- exp1/exp1.3.c: every interleaving ends, and what a failed creation of the thread leaves.
use grade15_1linux.Common.{
  ℕ, ◌+◌, ◌≤◌, ◌≡◌, ◌⊎◌, refl, arith, ltb, Bool, true, false, if◌then◌else◌, some, ℤ, is_nonzero,
  List, inl, inr,
}
use grade15_1linux.Join.{
  Line, Worker, absent, exiting, exited, looping, thread_function, join, Main, creating, counting,
  joining, finishing, returned, main_step, System, Run, main_next, thread_next,
}
use grade15_1linux.Join.Order.{thread_steps, InLoop, At, Run-At}

either_some {ℓ} :
    {A : Type ℓ} (b : Bool) (x y : A) → (t : A) × ((if b then some x else some y) ≡ some t)
either_some true x y = (x, refl)
either_some false x y = (y, refl)

-- Some thread has a next step.
abbrev Moves : ℤ → Main → Worker → Type 0
Moves code m w =
    ((t : Main × Worker × List Line) × (main_step code m w ≡ some t))
    ⊎ ((t : Worker × List Line) × (thread_function w ≡ some t))

joining-Moves : (code : ℤ) (w : Worker) → InLoop w → Moves code joining w
unfolding main_step join thread_function
joining-Moves code absent inside = absurd (omega arith)
joining-Moves code (looping k) inside = inr (either_some (ltb k 10) _ _)
joining-Moves code exiting inside = inr (_, refl)
joining-Moves code exited inside = inl (_, refl)

few_steps : (w : Worker) → InLoop w → thread_steps w ≤ 12
few_steps absent inside = omega arith
few_steps (looping k) inside = omega arith
few_steps exiting inside = omega arith
few_steps exited inside = omega arith

At-Moves :
    (code : ℤ) (m : Main) (w : Worker) (out : List Line) (n : ℕ)
    → At m w out n
    → (n ≤ 21) × (((value : ℤ) × (m ≡ returned value)) ⊎ Moves code m w)
unfolding main_step
At-Moves code creating w out n (none_yet, quiet, e) =
    (omega (arith, e), inr (inl (either_some (is_nonzero code) _ _)))
At-Moves code (counting k) w out n (low, c, lines, e) =
    (omega (arith, few_steps w c.inside, low, e), inr (inl (either_some (ltb k 5) _ _)))
At-Moves code joining w out n (c, lines, e) =
    (omega (arith, few_steps w c.inside, e), inr (joining-Moves code w c.inside))
At-Moves code finishing w out n (gone, its, lines, e) = (omega (arith, e), inr (inl (_, refl)))
At-Moves code (returned value) w out n (inl (bad, none_yet, its, e)) =
    (omega (arith, e), inl (value, refl))
At-Moves code (returned value) w out n (inr (good, gone, e, its)) =
    (omega (arith, e), inl (value, refl))

-- No interleaving is stuck before `main` returns, and none has more than 21 steps: `main` does return.
pub Run_returns :
    {code : ℤ} {n : ℕ} {s : System}
    → Run code n s
    → (n ≤ 21) × (((value : ℤ) × (s.main ≡ returned value)) ⊎ ((t : System) × Run code (n + 1) t))
Run_returns {code} {n} {s} run =
    let (bound, next) = At-Moves code s.main s.thread s.output n (Run-At run) in
    (
      bound,
      elim next [
        | inl ended ↦ inl ended
        | inr (inl ((m, w, ls), e)) ↦ inr (_, main_next run e)
        | inr (inr ((w, ls), e)) ↦ inr (_, thread_next run e)
      ],
    )
