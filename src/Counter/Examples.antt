-- ===== src/Counter/Examples.antt =====
-- Runs of the two programs by a schedule, and instances of the theorems about exp1/exp1.4.c and
-- exp3/exp3.2.c.
use grade15_1linux.Common.{ℕ, ◌+◌, ◌*◌, ◌≤◌, ◌≡◌, ◌↔◌, ◌⊎◌, refl, max}
use grade15_1linux.Counter.{
  Point, waiting, storing, exited, advance, System, Step, step1, step2, Run, start, next,
}
use grade15_1linux.Counter.Threads.{holds, Knows, Run_exclusive}
use grade15_1linux.Counter.Ending.{IsJoined, Run_progress, Run_final}

-- The first thread counts to 1 and exits, then the second.
abbrev at : ℕ → ℕ → Point → Point → System
at m d p q = record { semaphore = m; shared_data = d; thread1 = p; thread2 = q }

mid_run : Run 1 0 3 (at 0 0 (storing 0) waiting)
unfolding advance
mid_run = next (next (next start (step1 refl)) (step1 refl)) (step1 refl)

counted : Run 1 0 8 (at 1 1 exited waiting)
unfolding advance
counted =
    next (next (next (next (next mid_run (step1 refl)) (step1 refl)) (step1 refl)) (step1 refl))
      (step1 refl)

whole_run : Run 1 0 11 (at 1 1 exited exited)
unfolding advance
whole_run = next (next (next counted (step2 refl)) (step2 refl)) (step2 refl)

Run_exclusive_example :
    (holds (storing 0) + holds waiting ≤ 1)
    × ((◌≡◌ {A = ℕ} 0 1) ↔ (holds (storing 0) + holds waiting ≡ 0))
    × Knows 1 0 (storing 0)
    × Knows 0 0 waiting
Run_exclusive_example = Run_exclusive mid_run

Run_progress_example :
    IsJoined (at 0 0 (storing 0) waiting) ⊎ ((t : System) × Step 1 0 (at 0 0 (storing 0) waiting) t)
Run_progress_example = Run_progress mid_run

Run_final_example :
    (◌≡◌ {A = ℕ} 1 (max 1 0)) × (◌≡◌ {A = ℕ} 11 (5 * max 1 0 + 6)) × (◌≡◌ {A = ℕ} 1 1)
Run_final_example = Run_final whole_run (refl, refl)
