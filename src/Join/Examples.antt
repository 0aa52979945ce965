-- ===== src/Join/Examples.antt =====
-- Runs of exp1/exp1.3.c, and instances of the theorems.
use grade15_1linux.Common.{ℕ, ◌+◌, ◌≤◌, ◌≡◌, ◌⊎◌, refl, ℤ, pos, List, [], ◌∷◌, ◌++◌}
use grade15_1linux.Join.{
  Line, thread_done, main_finished, thread_line, Worker, exited, looping, thread_function, join,
  Main, counting, joining, returned, main_step, System, Run, start, main_next, thread_next,
}
use grade15_1linux.Join.Lines.{of_thread, of_main, thread_lines, main_lines}
use grade15_1linux.Join.Order.{Run_joins}
use grade15_1linux.Join.Ending.{Run_returns}

abbrev at : Main → Worker → List Line → System
at m w out = record { main = m; thread = w; output = out }

-- The thread begins, then `main` counts to its end, then the thread.
first_line : Run (pos 0) 2 (at (counting 0) (looping 1) (thread_line 0 ∷ []))
unfolding main_step thread_function
first_line = thread_next (main_next start refl) refl

abbrev main_ready : List Line
main_ready = thread_line 0 ∷ main_lines

main_waits : Run (pos 0) 8 (at joining (looping 1) main_ready)
unfolding main_step
main_waits =
    main_next
      (main_next (main_next (main_next (main_next (main_next first_line refl) refl) refl) refl)
        refl)
      refl

abbrev half : List Line
half =
    main_ready ++ thread_line 1 ∷ thread_line 2 ∷ thread_line 3 ∷ thread_line 4 ∷ thread_line 5 ∷ []

half_way : Run (pos 0) 13 (at joining (looping 6) half)
unfolding thread_function
half_way =
    thread_next
      (thread_next (thread_next (thread_next (thread_next main_waits refl) refl) refl) refl) refl

abbrev whole : List Line
whole = half ++ thread_line 6 ∷ thread_line 7 ∷ thread_line 8 ∷ thread_line 9 ∷ thread_done ∷ []

thread_gone : Run (pos 0) 19 (at joining exited whole)
unfolding thread_function
thread_gone =
    thread_next
      (thread_next
        (thread_next (thread_next (thread_next (thread_next half_way refl) refl) refl) refl) refl)
      refl

main_gone : Run (pos 0) 21 (at (returned (pos 0)) exited (whole ++ main_finished ∷ []))
unfolding main_step join
main_gone = main_next (main_next thread_gone refl) refl

Run_joins_example :
    (before : List Line) × (whole ++ main_finished ∷ [] ≡ before ++ main_finished ∷ [])
    × (of_thread before ≡ thread_lines)
    × (of_main before ≡ main_lines)
    × (◌≡◌ {A = Worker} exited exited)
    × (◌≡◌ {A = ℕ} 21 21)
Run_joins_example = Run_joins main_gone refl

Run_returns_example :
    (13 ≤ 21)
    × (((value : ℤ) × (joining ≡ returned value)) ⊎ ((t : System) × Run (pos 0) (13 + 1) t))
Run_returns_example = Run_returns half_way
