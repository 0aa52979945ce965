-- ===== src/TaskList/Ending.antt =====
-- exp1/exp1_8.c: what the module has printed at its end, that it gives its lock back, and that it comes
-- to its end.
use grade15_1linux.Common.{
  ℕ, ◌+◌, ◌*◌, ◌^◌, ◌≤◌, ◌<◌, ◌≡◌, ◌⊎◌, ◌∙◌, refl, ap, sym, subst, arith, List, [], ◌∷◌, ◌++◌, map,
  length, length-append, append-nil, inl, inr,
}
use grade15_1linux.TaskList.{
  Task, started, process, completed, entering, returned, Walker, System, Run, start, own, fork,
}
use grade15_1linux.TaskList.Ring.{IsTaskList}
use grade15_1linux.TaskList.Walk.{At, advance-At}
use grade15_1linux.TaskList.Ready.{advance_ready}
use grade15_1linux.TaskList.Forks.{Inv, fork-Inv}

module _ {F K : Type 0} (spin_lock_irqsave : K → F × K) (spin_unlock_irqrestore : F → K → K)
    (head : ℕ)
    (restores : (j : K)
      → spin_unlock_irqrestore (spin_lock_irqsave j).0 (spin_lock_irqsave j).1 ≡ j) where
  module _ (s : System F K) (init : Task) (ts : List Task) (tasks : IsTaskList s.nodes head init ts)
      (fresh : s.walker.point ≡ entering) (quiet : s.walker.output ≡ []) where
    Run-Inv :
        {n : ℕ} {fs : List Task} {t : System F K}
        → Run spin_lock_irqsave spin_unlock_irqrestore head s n fs t
        → Inv spin_lock_irqsave spin_unlock_irqrestore head s.walker.kernel ts fs n t
    Run-Inv start = record {
      printed = [];
      rest = ts;
      seen = [];
      missed = [];
      whole = sym (append-nil ts);
      forks = refl;
      rooted = λ gone. absurd (cc (tasks.all.here));
      one_last = tasks.one_last;
      at =
          subst
            (λ p.
              At spin_lock_irqsave spin_unlock_irqrestore head s.walker.kernel p s.nodes s.walker []
                ts [] 0)
            (sym fresh) ((init, tasks.all), refl, refl, quiet, refl, refl);
    }
    Run-Inv (own {n} {fs} {t} {w} run step) =
        let i = Run-Inv run in
        let a =
          advance-At spin_lock_irqsave spin_unlock_irqrestore head s.walker.kernel restores
            t.walker.point t.nodes t.walker w i.printed i.rest i.missed n i.at step in
        record {
          printed = a.printed;
          rest = a.rest;
          seen = i.seen;
          missed = i.missed;
          whole = a.whole ∙ i.whole;
          forks = i.forks;
          rooted = i.rooted;
          one_last = i.one_last;
          at = a.at;
        }
    Run-Inv (fork {n} {q} {a} {last} {fs} {t} new run at_q free) =
        fork-Inv spin_lock_irqsave spin_unlock_irqrestore head s.walker.kernel ts fs n q a last new
          t at_q free (Run-Inv run)

    -- The module, run on the kernel's list of tasks while the kernel adds tasks to it, prints each task
    -- that was there at the start, once and in the order of the list, then each of the first ones of
    -- those that are added, and the number of all that it has printed; the lock and the interrupts are
    -- then as they were, and it has made three steps for each task and four more.
    pub Run_prints :
        {n : ℕ} {fs : List Task} {t : System F K}
        → Run spin_lock_irqsave spin_unlock_irqrestore head s n fs t
        → t.walker.point ≡ returned
        → (seen : List Task) × (missed : List Task) × (fs ≡ seen ++ missed)
          × (t.walker.output
              ≡ started ∷ map process (ts ++ seen) ++ completed (length (ts ++ seen)) ∷ [])
          × (t.walker.kernel ≡ s.walker.kernel)
          × (n ≡ 3 * length (ts ++ seen) + 4)
    Run_prints {n} {fs} {t} run ended =
        let i = Run-Inv run in
        let (past, lines, kernel, steps) =
          subst
            (λ p.
              At spin_lock_irqsave spin_unlock_irqrestore head s.walker.kernel p t.nodes t.walker
                i.printed i.rest i.missed n)
            ended i.at in
        let all : i.printed ≡ ts ++ i.seen =
          sym (append-nil i.printed) ∙ ap (λ ds. i.printed ++ ds) (sym past) ∙ i.whole in
        (
          i.seen,
          i.missed,
          i.forks,
          lines ∙ ap (λ ds. started ∷ map process ds ++ completed (length ds) ∷ []) all,
          kernel,
          steps ∙ ap (λ ds. 3 * length ds + 4) all,
        )

    -- With fewer than 2^31 tasks, those that are added included, the module is never stuck, at a fault
    -- or elsewhere, before its end, and its steps are at most three for each task and four more: it
    -- ends.
    pub Run_ends :
        {n : ℕ} {fs : List Task} {t : System F K}
        → Run spin_lock_irqsave spin_unlock_irqrestore head s n fs t
        → length ts + length fs < 2 ^ 31
        → (n ≤ 3 * (length ts + length fs) + 4)
          × ((t.walker.point ≡ returned)
              ⊎ ((w : Walker F K) × Run spin_lock_irqsave spin_unlock_irqrestore head s
                    (n + 1)
                    fs
                    (record { nodes = t.nodes; walker = w })))
    Run_ends {n} {fs} {t} run few =
        let i = Run-Inv run in
        let total : length i.printed + length i.rest ≡ length ts + length i.seen =
          sym (length-append i.printed i.rest)
          ∙ ap (λ ds. length ds) i.whole
          ∙ length-append ts i.seen in
        let forks : length fs ≡ length i.seen + length i.missed =
          ap (λ ds. length ds) i.forks ∙ length-append i.seen i.missed in
        let (bound, next) =
          advance_ready spin_lock_irqsave spin_unlock_irqrestore head s.walker.kernel t.walker.point
            t.nodes t.walker i.printed i.rest i.missed n i.at (omega (arith, total, forks, few)) in
        (
          omega (arith, bound, total, forks),
          elim next [ inl ended ↦ inl ended | inr (w, e) ↦ inr (w, own run e) ],
        )
