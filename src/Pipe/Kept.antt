-- ===== src/Pipe/Kept.antt =====
-- exp1/exp1.5.c: what every interleaving of the processes keeps.
use grade15_1linux.Common.{
  drop-append_le, take-append_le, ℕ, suc, ◌+◌, ◌≤◌, ◌≡◌, ◌≢◌, ◌∙◌, ap, sym, arith, true, Option,
  some, List, ◌++◌, Bytes, length, take, drop, map, length-append,
}
use grade15_1linux.Pipe.{Who, Child, absent, message, advance, System, with_child, child}
use grade15_1linux.Pipe.Order.{holds, wrote, gone, rank, held_by, tally, tally-append}
use grade15_1linux.Pipe.Blocks.{blocks, blocks-append, Formed, advance-Advanced}
use grade15_1linux.Pipe.Points.{reads, waits, said, future, ahead, each, before_each, sum_replaced}

module _ (outpipe : Bytes) (size : length outpipe ≡ 100) where
  -- The children that have written, in their order, and what follows for the pipe, the lock and the
  -- lines that the parent has read.
  pub record Inv (s : System) : Type 0 where
    pub order : List Who
    pub tallies : (c : Who) → tally c order ≡ wrote (child c s)
    pub locks : (c : Who) → held_by c s.lock ≡ holds (child c s)
    pub formed : (c : Who) → Formed outpipe c (child c s)
    pub unborn : (c : Who) → future s.parent c ≡ true → child c s ≡ absent
    pub enough : reads s.parent ≤ length order
    pub in_pipe : s.pipe ≡ blocks outpipe (drop (reads s.parent) order)
    pub heard : said s.parent s.inpipe s.printed ≡ map message (take (reads s.parent) order)
    pub waited_le : gone s.child1 + gone s.child2 ≤ waits s.parent
    pub waited : ((c : Who) → child c s ≢ absent) → gone s.child1 + gone s.child2 ≡ waits s.parent

  -- The steps that are left at most.
  abbrev pub left : System → ℕ
  left s = ahead s.parent + rank s.child1 + rank s.child2

  -- A step that keeps the invariant and leaves fewer steps.
  pub record Next (s t : System) : Type 0 where
    pub inv : Inv t
    pub less : suc (left t) ≤ left s

  pub of_child-Next :
      (s : System) (c : Who) (p : Child) (lock : Option Who) (pipe : Bytes)
      → Inv s
      → advance c outpipe (child c s) s.lock s.pipe ≡ some (p, lock, pipe)
      → Next s (record (with_child c p s) { lock = lock; pipe = pipe })
  of_child-Next s c p lock pipe inv e =
      let a =
        advance-Advanced outpipe c (child c s) s.lock s.pipe (p, lock, pipe) e (inv.locks c)
          (inv.formed c) in
      let r = reads s.parent in
      let sum = sum_replaced gone c p s.child1 s.child2 in
      record {
        inv = record {
          order = inv.order ++ a.sent;
          tallies =
              each (λ d q. tally d (inv.order ++ a.sent) ≡ wrote q) c p s.child1 s.child2
                (omega (arith, tally-append c inv.order a.sent, inv.tallies c, a.mine))
                (λ d ne.
                  omega (arith, tally-append d inv.order a.sent, inv.tallies d, a.others d ne));
          locks =
              each (λ d q. held_by d lock ≡ holds q) c p s.child1 s.child2 a.my_lock
                (λ d ne. a.other_locks d ne ∙ inv.locks d);
          formed = each (Formed outpipe) c p s.child1 s.child2 a.formed (λ d ne. inv.formed d);
          unborn =
              each (λ d q. future s.parent d ≡ true → q ≡ absent) c p s.child1 s.child2
                (λ h. absurd (a.there (inv.unborn c h))) (λ d ne. inv.unborn d);
          enough = omega (arith, inv.enough, length-append inv.order a.sent);
          in_pipe =
              a.pipe_after
              ∙ ap (λ b. b ++ blocks outpipe a.sent) inv.in_pipe
              ∙ sym (blocks-append outpipe (drop r inv.order) a.sent)
              ∙ ap (blocks outpipe) (sym (drop-append_le r inv.order a.sent inv.enough));
          heard = inv.heard ∙ ap (map message) (sym (take-append_le r inv.order a.sent inv.enough));
          waited_le = omega (arith, sum, inv.waited_le, a.gone_not.0, a.gone_not.1);
          waited = λ there. omega (
            arith,
            sum,
            a.gone_not.0,
            a.gone_not.1,
            inv.waited (before_each (λ d q. q ≢ absent) c p s.child1 s.child2 a.there there),
          );
        };
        less = omega (arith, sum_replaced rank c p s.child1 s.child2, a.ranks);
      }
