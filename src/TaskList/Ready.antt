-- ===== src/TaskList/Ready.antt =====
-- exp1/exp1_8.c: the module has a next step wherever it is, and how many it has made.
use grade15_1linux.Common.{
  ℕ, ◌+◌, ◌*◌, ◌^◌, ◌≤◌, ◌<◌, ◌≡◌, ◌⊎◌, refl, ap, arith, leb, false, Option, some, List, [], ◌∷◌,
  ◌++◌, length, inl, inr,
}
use grade15_1linux.TaskList.{
  Task, Node, process, completed, Point, entering, stepping, testing, visiting, unlocking, returned,
  Walker, int_max, advance,
}
use grade15_1linux.TaskList.Ring.{stop, link}
use grade15_1linux.TaskList.Walk.{At}

module _ {F K : Type 0} (spin_lock_irqsave : K → F × K) (spin_unlock_irqrestore : F → K → K)
    (head : ℕ) (k : K) where
  -- Before its end the module has a next step, as long as there are fewer than 2^31 tasks.
  pub advance_ready :
      (pt : Point) (t : ℕ → Option Node) (w : Walker F K) (printed rest missed : List Task) (n : ℕ)
      → At spin_lock_irqsave spin_unlock_irqrestore head k pt t w printed rest missed n
      → length printed + length rest < 2 ^ 31
      → (n ≤ 3 * (length printed + length rest) + 4)
        × ((pt ≡ returned)
            ⊎ ((w' : Walker F K) × (advance spin_lock_irqsave spin_unlock_irqrestore head pt t w
                  ≡ some w')))
  unfolding advance
  advance_ready entering t w printed rest missed n (b, all, none_yet, out, free, e) few =
      (omega (arith, e), inr (_, refl))
  advance_ready (stepping p) t w printed rest missed n ((d, b), all, i, e) few =
      (omega (arith, e), inr (record w { point = testing b.next_of }, rw (b.here, advance) refl))
  advance_ready (testing p) t w printed rest missed n (c, late, i, e) few =
      (omega (arith, e), inr (_, refl))
  advance_ready (visiting p) t w printed [] missed n (stop, away, all, i, e) few =
      absurd (away refl)
  advance_ready (visiting p) t w printed (d ∷ rest) missed n (link apart here c, away, all, i, e)
        few =
      let fits : leb int_max w.count ≡ false = ground (arith, i.counted, few) in
      (
        omega (arith, e),
        inr (
          record w { point = stepping p; count = w.count + 1; output = w.output ++ process d ∷ [] },
          rw (here, fits, advance) refl,
        ),
      )
  advance_ready unlocking t w printed rest missed n (past, i, e) few = (
    omega (arith, e),
    let w' = record w {
      point = returned;
      output = w.output ++ completed w.count ∷ [];
      kernel = spin_unlock_irqrestore (spin_lock_irqsave k).0 w.kernel;
    } in
        inr (w', rw (i.saved, advance) (ap (λ f. some (record w' { flags = f })) i.saved)),
  )
  advance_ready returned t w printed rest missed n facts few = (omega (arith, facts.3), inl refl)
