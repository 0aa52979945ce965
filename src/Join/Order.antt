-- ===== src/Join/Order.antt =====
-- exp1/exp1.3.c: what every interleaving keeps of the order of the lines.
use grade15_1linux.Common.{
  along, ℕ, ◌+◌, ◌≤◌, ◌≡◌, ◌⊎◌, ◌∙◌, refl, ap, subst, arith, ltb, Bool-cases, some, ℤ, pos,
  is_nonzero, List, [], ◌∷◌, ◌++◌, append-nil, inl, inr,
}
use grade15_1linux.Join.{
  Line, error_creating, thread_done, main_waiting, main_finished, thread_line, main_line, Worker,
  absent, exiting, exited, looping, thread_function, join, Main, creating, counting, joining,
  finishing, returned, main_step, System, Run, start, main_next, thread_next,
}
use grade15_1linux.Join.Lines.{
  of_thread, of_main, up_to, thread_lines, main_lines, printed, up_to_next, thread_grown,
  main_grown,
}

-- The steps of the thread so far; its loop does not pass its end.
abbrev pub thread_steps : Worker → ℕ
thread_steps absent = 0
thread_steps (looping n) = n
thread_steps exiting = 11
thread_steps exited = 12

abbrev pub InLoop : Worker → Type 0
InLoop absent = 1 ≤ 0
InLoop (looping n) = n ≤ 10
InLoop _ = Unit {0}

-- A thread that has been created, and its lines.
pub record Created (w : Worker) (out : List Line) : Type 0 where
  pub lines : of_thread out ≡ printed w
  pub inside : InLoop w

-- The state where `main` is, after `n` steps.
abbrev pub At : Main → Worker → List Line → ℕ → Type 0
At creating w out n = (w ≡ absent) × (out ≡ []) × (n ≡ 0)
At (counting k) w out n =
    (k ≤ 5) × Created w out × (of_main out ≡ up_to main_line k) × (n ≡ thread_steps w + k + 1)
At joining w out n = Created w out × (of_main out ≡ main_lines) × (n ≡ thread_steps w + 7)
At finishing w out n =
    (w ≡ exited) × (of_thread out ≡ thread_lines) × (of_main out ≡ main_lines) × (n ≡ 20)
At (returned code) w out n =
    ((code ≡ pos 1) × (w ≡ absent) × (out ≡ error_creating ∷ []) × (n ≡ 1))
    ⊎ ((code ≡ pos 0)
        × (w ≡ exited)
        × (n ≡ 21)
        × ((before : List Line) × (out ≡ before ++ main_finished ∷ [])
            × (of_thread before ≡ thread_lines)
            × (of_main before ≡ main_lines)))

Created-grown :
    {w : Worker} {out : List Line} (ls : List Line)
    → of_thread ls ≡ []
    → Created w out
    → Created w (out ++ ls)
Created-grown {w} {out} ls silent c = record {
  lines = thread_grown out ls c.lines ∙ ap (λ xs. printed w ++ xs) silent ∙ append-nil (printed w);
  inside = c.inside;
}

-- A state by the results of a step.
abbrev Left : List Line → ℕ → Main × Worker × List Line → Type 0
Left out n t = At t.0 t.1 (out ++ t.2) n

main_step-At :
    (code : ℤ) (m : Main) (w : Worker) (out : List Line) (n : ℕ) (t : Main × Worker × List Line)
    → At m w out n
    → main_step code m w ≡ some t
    → Left out (n + 1) t
unfolding main_step join
main_step-At code creating w out n t (none_yet, quiet, e) s = elim (Bool-cases (is_nonzero code)) [
  | inl bad ↦
      let s' = rw bad at s in
      along (Left out (n + 1)) s'
        (inl (refl, none_yet, ap (λ ls. ls ++ error_creating ∷ []) quiet, omega (arith, e)))
  | inr good ↦
      let s' = rw good at s in
      along (Left out (n + 1)) s' (
        omega arith,
        record { lines = thread_grown out [] (ap of_thread quiet); inside = omega arith },
        main_grown out [] (ap of_main quiet),
        omega (arith, e),
      )
]
main_step-At code (counting k) w out n t (low, c, lines, e) s = elim (Bool-cases (ltb k 5)) [
  | inl more ↦
      let s' = rw more at s in
      along (Left out (n + 1)) s' (
        ground arith,
        Created-grown (main_line k ∷ []) refl c,
        main_grown out (main_line k ∷ []) lines ∙ up_to_next main_line k,
        omega (arith, e),
      )
  | inr last ↦
      let s' = rw last at s in
      let end : k ≡ 5 = ground arith in
      along (Left out (n + 1)) s' (
        Created-grown (main_waiting ∷ []) refl c,
        main_grown out (main_waiting ∷ []) (lines ∙ ap (up_to main_line) end),
        omega (arith, e),
      )
]
main_step-At code joining exited out n t (c, lines, e) s =
    along (Left out (n + 1)) s
      (refl, thread_grown out [] c.lines, main_grown out [] lines, omega (arith, e))
main_step-At code joining absent out n t (c, lines, e) s = absurd (cc)
main_step-At code joining exiting out n t (c, lines, e) s = absurd (cc)
main_step-At code joining (looping k) out n t (c, lines, e) s = absurd (cc)
main_step-At code finishing w out n t (gone, its, lines, e) s =
    along (Left out (n + 1)) s (inr (refl, gone, omega (arith, e), (out, refl, its, lines)))
main_step-At code (returned value) w out n t at s = absurd (cc)

abbrev ThreadLeft : Main → List Line → ℕ → Worker × List Line → Type 0
ThreadLeft m out n t = At m t.0 (out ++ t.1) n

-- What a step of the thread keeps.
record Moved (out : List Line) (k : ℕ) (t : Worker × List Line) : Type 0 where
  created : Created t.0 (out ++ t.1)
  silent : of_main (out ++ t.1) ≡ of_main out
  steps : thread_steps t.0 ≡ k + 1

thread_function-Moved :
    (w : Worker) (out : List Line) (t : Worker × List Line)
    → Created w out
    → thread_function w ≡ some t
    → Moved out (thread_steps w) t
unfolding thread_function
thread_function-Moved absent out t c s = absurd (cc)
thread_function-Moved (looping k) out t c s = elim (Bool-cases (ltb k 10)) [
  | inl more ↦
      let s' = rw more at s in
      along (Moved out k) s' (record {
        created = record {
          lines = thread_grown out (thread_line k ∷ []) c.lines ∙ up_to_next thread_line k;
          inside = ground arith;
        };
        silent = main_grown out (thread_line k ∷ []) refl ∙ append-nil (of_main out);
        steps = refl;
      })
  | inr last ↦
      let s' = rw last at s in
      let inside = c.inside in
      let end : k ≡ 10 = ground arith in
      along (Moved out k) s' (record {
        created = record {
          lines = thread_grown out (thread_done ∷ []) (c.lines ∙ ap (up_to thread_line) end);
          inside = tt;
        };
        silent = main_grown out (thread_done ∷ []) refl ∙ append-nil (of_main out);
        steps = omega (arith, end);
      })
]
thread_function-Moved exiting out t c s = along (Moved out 11) s (record {
  created = record { lines = thread_grown out [] c.lines; inside = tt };
  silent = main_grown out [] refl ∙ append-nil (of_main out);
  steps = refl;
})
thread_function-Moved exited out t c s = absurd (cc)

thread_function-At :
    (m : Main) (w : Worker) (out : List Line) (n : ℕ) (t : Worker × List Line)
    → At m w out n
    → thread_function w ≡ some t
    → At m t.0 (out ++ t.1) (n + 1)
unfolding thread_function
thread_function-At creating w out n t (none_yet, quiet, e) s = absurd (cc)
thread_function-At (counting k) w out n t (low, c, lines, e) s =
    let m = thread_function-Moved w out t c s in
    (low, m.created, m.silent ∙ lines, omega (arith, m.steps, e))
thread_function-At joining w out n t (c, lines, e) s =
    let m = thread_function-Moved w out t c s in
    (m.created, m.silent ∙ lines, omega (arith, m.steps, e))
thread_function-At finishing w out n t (gone, its, lines, e) s = absurd (cc)
thread_function-At (returned code) w out n t (inl (bad, none_yet, its, e)) s = absurd (cc)
thread_function-At (returned code) w out n t (inr (good, gone, e, its)) s = absurd (cc)

pub Run-At : {code : ℤ} {n : ℕ} {s : System} → Run code n s → At s.main s.thread s.output n
Run-At start = (refl, refl, refl)
Run-At {code} (main_next {n} {s} {m} {w} {ls} run step) =
    main_step-At code s.main s.thread s.output n (m, w, ls) (Run-At run) step
Run-At (thread_next {n} {s} {w} {ls} run step) =
    thread_function-At s.main s.thread s.output n (w, ls) (Run-At run) step

-- When `main` returns 0, the thread has exited, and in whatever order the two ran: the last line is
-- that the thread has finished, and among the lines before it are those of the thread, its ten numbers
-- in order and then that it is done, and those of `main`, its five numbers in order and then that it
-- waits, each exactly once; 21 steps have been made.
pub Run_joins :
    {code : ℤ} {n : ℕ} {s : System}
    → Run code n s
    → s.main ≡ returned (pos 0)
    → (before : List Line) × (s.output ≡ before ++ main_finished ∷ [])
      × (of_thread before ≡ thread_lines)
      × (of_main before ≡ main_lines)
      × (s.thread ≡ exited)
      × (n ≡ 21)
Run_joins {n} {s} run ended = elim (subst (λ m. At m s.thread s.output n) ended (Run-At run)) [
  | inl (bad, none_yet, its, e) ↦ absurd (cc)
  | inr (good, gone, steps, (before, last, its, lines)) ↦ (before, last, its, lines, gone, steps)
]
