-- ===== src/TaskList/Leaving/Staying.antt =====
-- exp1/exp1_8.c: while tasks come and go, the module prints every task that stays, and ends.
use grade15_1linux.Common.{
  ℕ, ◌+◌, ◌*◌, ◌^◌, ◌≤◌, ◌<◌, ◌≡◌, ◌≢◌, ◌⊎◌, ◌∙◌, refl, ap, sym, subst, arith, Bool, Option, none,
  List, [], ◌∷◌, ◌++◌, map, length, length-append, append-nil, inl, inr,
}
use grade15_1linux.TaskList.{
  Task, Node, started, process, completed, Point, entering, stepping, testing, visiting, unlocking,
  returned, Walker, System, place, add_tail,
}
use grade15_1linux.TaskList.Ring.{node, Behind}
use grade15_1linux.TaskList.Walk.{At, advance-At}
use grade15_1linux.TaskList.Ready.{advance_ready}
use grade15_1linux.TaskList.Leaving.{pass_over, Busy, begin, own_step, joins, leaves}
use grade15_1linux.TaskList.Leaving.Chains.{
  staying, staying-append, Changed, Changed-refl, NodeChanges, Chain-Changed, Behind-Changed,
  pass_over-NodeChanges, add_tail-NodeChanges,
}

place_used : (t : ℕ → Option Node) (q p : ℕ) (n : Node) → t p ≢ none → place t q n p ≢ none
place_used t q p n used gone = absurd (ground (arith, used))

module _ {F K : Type 0} (spin_lock_irqsave : K → F × K) (spin_unlock_irqrestore : F → K → K)
    (head : ℕ) (stays : Task → Bool) where
  -- A change of the list, where the module is.
  change-At :
      (k : K) (t t' : ℕ → Option Node) (extra : ℕ)
      → NodeChanges stays t t' head extra
      → (pt : Point) (w : Walker F K) (printed rest : List Task) (n : ℕ)
      → At spin_lock_irqsave spin_unlock_irqrestore head k pt t w printed rest [] n
      → (after : List Task) × At spin_lock_irqsave spin_unlock_irqrestore head k pt t' w printed
          after [] n
        × Changed stays extra rest after
  change-At k t t' extra changes entering w printed rest n ((d, b), all, none_yet, quiet, free, e) =
      let (es, b', c) = Behind-Changed stays t t' head extra changes head d rest b in
      (es, ((d, b'), all, none_yet, quiet, free, e), c)
  change-At k t t' extra changes (stepping p) w printed rest n ((d, b), all, i, e) =
      let (es, b', c) = Behind-Changed stays t t' head extra changes p d rest b in
      (es, ((d, b'), all, i, e), c)
  change-At k t t' extra changes (testing p) w printed rest n (path, late, i, e) =
      let (es, path', c) = Chain-Changed stays t t' head extra changes p rest path in
      (es, (path', late, i, e), c)
  change-At k t t' extra changes (visiting p) w printed rest n (path, away, all, i, e) =
      let (es, path', c) = Chain-Changed stays t t' head extra changes p rest path in
      (es, (path', away, all, i, e), c)
  change-At k t t' extra changes unlocking w printed rest n facts =
      (rest, facts, Changed-refl stays extra rest)
  change-At k t t' extra changes returned w printed rest n facts =
      (rest, facts, Changed-refl stays extra rest)

  -- What every run keeps.
  record Kept (k : K) (ts : List Task) (n f : ℕ) (s : System F K) : Type 0 where
    printed : List Task
    rest : List Task
    same : staying stays (printed ++ rest) ≡ staying stays ts
    few : length printed + length rest ≤ length ts + f
    rooted : s.nodes head ≢ none
    at :
        At spin_lock_irqsave spin_unlock_irqrestore head k s.walker.point s.nodes s.walker printed
          rest [] n

  changed-Kept :
      (k : K) (ts : List Task) (n f extra : ℕ) (s : System F K) (t' : ℕ → Option Node)
      → NodeChanges stays s.nodes t' head extra
      → t' head ≢ none
      → Kept k ts n f s
      → Kept k ts n (f + extra) (record { nodes = t'; walker = s.walker })
  changed-Kept k ts n f extra s t' changes rooted i =
      let (after, at, c) =
        change-At k s.nodes t' extra changes s.walker.point s.walker i.printed i.rest n i.at in
      record {
        printed = i.printed;
        rest = after;
        same = staying-append stays i.printed after i.rest c.same ∙ i.same;
        few = omega (arith, i.few, c.few);
        rooted = rooted;
        at = at;
      }

  module _
      (restores : (j : K)
        → spin_unlock_irqrestore (spin_lock_irqsave j).0 (spin_lock_irqsave j).1 ≡ j)
      (s : System F K) (init : Task) (ts : List Task) (tasks : Behind s.nodes head head init ts)
      (fresh : s.walker.point ≡ entering) (quiet : s.walker.output ≡ []) where
    Busy-Kept :
        {n f : ℕ} {t : System F K}
        → Busy spin_lock_irqsave spin_unlock_irqrestore head stays s n f t
        → Kept s.walker.kernel ts n f t
    Busy-Kept begin = record {
      printed = [];
      rest = ts;
      same = refl;
      few = omega arith;
      rooted = λ gone. absurd (cc (tasks.here));
      at =
          subst
            (λ p.
              At spin_lock_irqsave spin_unlock_irqrestore head s.walker.kernel p s.nodes s.walker []
                ts [] 0)
            (sym fresh) ((init, tasks), refl, refl, quiet, refl, refl);
    }
    Busy-Kept (own_step {n} {f} {t} {w} run step) =
        let i = Busy-Kept run in
        let a =
          advance-At spin_lock_irqsave spin_unlock_irqrestore head s.walker.kernel restores
            t.walker.point t.nodes t.walker w i.printed i.rest [] n i.at step in
        record {
          printed = a.printed;
          rest = a.rest;
          same = ap (staying stays) a.whole ∙ i.same;
          few = omega (
            arith,
            i.few,
            ap (λ ds. length ds) a.whole,
            length-append a.printed a.rest,
            length-append i.printed i.rest,
          );
          rooted = i.rooted;
          at = a.at;
        }
    Busy-Kept (joins {n} {f} {q} {a} {last} {t} new run gone at_q free) =
        let i = Busy-Kept run in
        let apart : head ≢ a = λ e. i.rooted (ap t.nodes e ∙ free) in
        changed-Kept s.walker.kernel ts n f 1 t (add_tail head q last a new t.nodes)
          (add_tail-NodeChanges stays t.nodes head q a last new gone apart at_q free)
          (place_used (place t.nodes q (node last a)) a head (node new head)
            (place_used t.nodes q head (node last a) i.rooted))
          i
    Busy-Kept (leaves {n} {f} {q} {r} {m} {d} {e} {t} run gone apart at_q at_r) =
        let i = Busy-Kept run in
        let k =
          changed-Kept s.walker.kernel ts n f 0 t (pass_over q d m t.nodes)
            (pass_over-NodeChanges stays t.nodes head q r m d e gone apart at_q at_r)
            (place_used t.nodes q head (node d m) i.rooted) i in
        record {
          printed = k.printed;
          rest = k.rest;
          same = k.same;
          few = omega (arith, k.few);
          rooted = k.rooted;
          at = k.at;
        }

    -- While tasks come and go, the module prints tasks of which those that stay are exactly those of the
    -- list at the start that stay, each once and in the order of the list, and then the number of all
    -- that it has printed; the lock and the interrupts are then as they were, and it has made three
    -- steps for each task and four more.
    pub Busy_prints :
        {n f : ℕ} {t : System F K}
        → Busy spin_lock_irqsave spin_unlock_irqrestore head stays s n f t
        → t.walker.point ≡ returned
        → (printed : List Task) × (t.walker.output
            ≡ started ∷ map process printed ++ completed (length printed) ∷ [])
          × (staying stays printed ≡ staying stays ts)
          × (t.walker.kernel ≡ s.walker.kernel)
          × (n ≡ 3 * length printed + 4)
    Busy_prints {n} {f} {t} run ended =
        let i = Busy-Kept run in
        let (past, lines, kernel, steps) =
          subst
            (λ p.
              At spin_lock_irqsave spin_unlock_irqrestore head s.walker.kernel p t.nodes t.walker
                i.printed i.rest [] n)
            ended i.at in
        let all : i.printed ≡ i.printed ++ i.rest =
          sym (append-nil i.printed) ∙ ap (λ ds. i.printed ++ ds) (sym past) in
        (i.printed, lines, ap (staying stays) all ∙ i.same, kernel, steps)

    -- With fewer than 2^31 tasks at the start and added since, the module is never stuck, at a fault or
    -- elsewhere, before its end, and its steps are at most three for each of these tasks and four more:
    -- it ends.
    pub Busy_ends :
        {n f : ℕ} {t : System F K}
        → Busy spin_lock_irqsave spin_unlock_irqrestore head stays s n f t
        → length ts + f < 2 ^ 31
        → (n ≤ 3 * (length ts + f) + 4)
          × ((t.walker.point ≡ returned)
              ⊎ ((w : Walker F K) × Busy spin_lock_irqsave spin_unlock_irqrestore head stays s
                    (n + 1)
                    f
                    (record { nodes = t.nodes; walker = w })))
    Busy_ends {n} {f} {t} run bound =
        let i = Busy-Kept run in
        let (steps, next) =
          advance_ready spin_lock_irqsave spin_unlock_irqrestore head s.walker.kernel t.walker.point
            t.nodes t.walker i.printed i.rest [] n i.at (omega (arith, i.few, bound)) in
        (
          omega (arith, steps, i.few),
          elim next [ inl ended ↦ inl ended | inr (w, e) ↦ inr (w, own_step run e) ],
        )
