-- ===== src/Pipe/Forks.antt =====
-- exp1/exp1.5.c: the forks and the waits of the parent keep the invariant.
use grade15_1linux.Common.{ℕ, ◌≡◌, ◌≢◌, ◌∙◌, refl, ap, arith, true, Bytes, length, take, drop, map}
use grade15_1linux.Pipe.{
  Who, first, second, Child, absent, locking, ended, reaped, message, System, behind, with_child,
  child, IsFork, IsWait, IsGone, never, waited as was_waited,
}
use grade15_1linux.Pipe.Order.{holds, wrote, gone, rank, held_by, tally}
use grade15_1linux.Pipe.Blocks.{blocks, Formed}
use grade15_1linux.Pipe.Points.{
  reads, said, future, Moves, IsFork-Moves, IsWait-Moves, fork-future, fork-waits, wait-waits,
  fork-said, wait-said, each, before_each, sum_replaced,
}
use grade15_1linux.Pipe.Kept.{Inv, Next}

IsGone-gone : (p : Child) → IsGone p → p ≢ absent → gone p ≡ 1
IsGone-gone p never there = absurd (there refl)
IsGone-gone p was_waited there = refl

module _ (outpipe : Bytes) (size : length outpipe ≡ 100) (s : System)
    (inv : Inv outpipe size s) where
  -- Steps of the parent that read nothing.
  pub same_reads : {w k : ℕ} → Moves w 0 k s.parent → reads s.parent ≡ reads (behind s.parent)
  same_reads m = omega (arith, m.reads_behind)

  pub pipe_still :
      {w k : ℕ}
      → Moves w 0 k s.parent
      → s.pipe ≡ blocks outpipe (drop (reads (behind s.parent)) inv.order)
  pipe_still m = inv.in_pipe ∙ ap (λ r. blocks outpipe (drop r inv.order)) (same_reads m)

  pub heard_still :
      {w k : ℕ}
      → Moves w 0 k s.parent
      → said s.parent s.inpipe s.printed ≡ map message (take (reads (behind s.parent)) inv.order)
  heard_still m = inv.heard ∙ ap (λ r. map message (take r inv.order)) (same_reads m)

  pub of_fork-Next :
      (c : Who)
      → IsFork s.parent c
      → Next outpipe size s (record (with_child c locking s) { parent = behind s.parent })
  of_fork-Next c fork =
      let m = IsFork-Moves fork in
      let new = inv.unborn c (fork-future fork).0 in
      let none_gone = sum_replaced gone c locking s.child1 s.child2 in
      let start_rank = sum_replaced rank c locking s.child1 s.child2 in
      record {
        inv = record {
          order = inv.order;
          tallies =
              each (λ d q. tally d inv.order ≡ wrote q) c locking s.child1 s.child2
                (inv.tallies c ∙ ap wrote new) (λ d ne. inv.tallies d);
          locks =
              each (λ d q. held_by d s.lock ≡ holds q) c locking s.child1 s.child2
                (inv.locks c ∙ ap holds new) (λ d ne. inv.locks d);
          formed = each (Formed outpipe) c locking s.child1 s.child2 tt (λ d ne. inv.formed d);
          unborn =
              each (λ d q. future (behind s.parent) d ≡ true → q ≡ absent) c locking s.child1
                s.child2 (λ h. absurd ((fork-future fork).1 c h refl))
                (λ d ne h. inv.unborn d (m.future_behind d h));
          enough = omega (arith, inv.enough, m.reads_behind);
          in_pipe = pipe_still m;
          heard = fork-said s.inpipe s.printed fork ∙ heard_still m;
          waited_le = omega (arith, none_gone, inv.waited_le, m.waits_behind, ap gone new);
          waited = λ there.
              omega (arith, none_gone, inv.waited_le, m.waits_behind, ap gone new, fork-waits fork);
        };
        less = omega (arith, start_rank, m.ahead_behind, ap rank new);
      }

  pub fork_fails-Next :
      (c : Who) → IsFork s.parent c → Next outpipe size s (record s { parent = behind s.parent })
  fork_fails-Next c fork =
      let m = IsFork-Moves fork in
      record {
        inv = record {
          order = inv.order;
          tallies = inv.tallies;
          locks = inv.locks;
          formed = inv.formed;
          unborn = λ d h. inv.unborn d (m.future_behind d h);
          enough = omega (arith, inv.enough, m.reads_behind);
          in_pipe = pipe_still m;
          heard = fork-said s.inpipe s.printed fork ∙ heard_still m;
          waited_le = omega (arith, inv.waited_le, m.waits_behind);
          waited = λ there. absurd (there c (inv.unborn c (fork-future fork).0));
        };
        less = omega (arith, m.ahead_behind);
      }

  pub of_wait-Next :
      (c : Who)
      → IsWait s.parent
      → child c s ≡ ended
      → Next outpipe size s (record (with_child c reaped s) { parent = behind s.parent })
  of_wait-Next c wait over =
      let m = IsWait-Moves wait in
      let one_gone = sum_replaced gone c reaped s.child1 s.child2 in
      let same_rank = sum_replaced rank c reaped s.child1 s.child2 in
      record {
        inv = record {
          order = inv.order;
          tallies =
              each (λ d q. tally d inv.order ≡ wrote q) c reaped s.child1 s.child2
                (inv.tallies c ∙ ap wrote over) (λ d ne. inv.tallies d);
          locks =
              each (λ d q. held_by d s.lock ≡ holds q) c reaped s.child1 s.child2
                (inv.locks c ∙ ap holds over) (λ d ne. inv.locks d);
          formed = each (Formed outpipe) c reaped s.child1 s.child2 tt (λ d ne. inv.formed d);
          unborn =
              each (λ d q. future (behind s.parent) d ≡ true → q ≡ absent) c reaped s.child1
                s.child2 (λ h. absurd (cc (inv.unborn c (m.future_behind c h))))
                (λ d ne h. inv.unborn d (m.future_behind d h));
          enough = omega (arith, inv.enough, m.reads_behind);
          in_pipe = pipe_still m;
          heard = wait-said s.inpipe s.printed wait ∙ heard_still m;
          waited_le = omega (arith, one_gone, inv.waited_le, m.waits_behind, ap gone over);
          waited = λ there. omega (
            arith,
            one_gone,
            m.waits_behind,
            ap gone over,
            inv.waited (
                before_each (λ d q. q ≢ absent) c reaped s.child1 s.child2
                  (λ e. absurd (cc (over, e))) there),
          );
        };
        less = omega (arith, same_rank, m.ahead_behind, ap rank over);
      }

  pub wait_fails-Next :
      IsWait s.parent
      → IsGone s.child1
      → IsGone s.child2
      → Next outpipe size s (record s { parent = behind s.parent })
  wait_fails-Next wait gone1 gone2 =
      let m = IsWait-Moves wait in
      record {
        inv = record {
          order = inv.order;
          tallies = inv.tallies;
          locks = inv.locks;
          formed = inv.formed;
          unborn = λ d h. inv.unborn d (m.future_behind d h);
          enough = omega (arith, inv.enough, m.reads_behind);
          in_pipe = pipe_still m;
          heard = wait-said s.inpipe s.printed wait ∙ heard_still m;
          waited_le = omega (arith, inv.waited_le, m.waits_behind);
          waited = λ there. absurd (
              omega (
                arith,
                inv.waited_le,
                wait-waits wait,
                IsGone-gone s.child1 gone1 (there first),
                IsGone-gone s.child2 gone2 (there second),
              ));
        };
        less = omega (arith, m.ahead_behind);
      }
