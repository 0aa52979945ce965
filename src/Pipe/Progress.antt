-- ===== src/Pipe/Progress.antt =====
-- exp1/exp1.5.c: the processes do not block each other.
use grade15_1linux.Common.{
  ℕ, zero, suc, ◌≤◌, ◌<◌, ◌≡◌, ◌≢◌, ◌∙◌, refl, ap, sym, subst, arith, true, Option, none, some,
  List, [], ◌∷◌, ◌++◌, Bytes, length, take, drop,
}
use grade15_1linux.Pipe.{
  Who, first, second, Child, absent, locking, formatting, unlocking, exiting, ended, reaped,
  writing, Parent, forking1, forking2, waiting1, reading1, printing1, waiting2, reading2, printing2,
  finished, count, sprintf, unlock, advance, System, child, IsFork, fork1, fork2, IsWait, wait1,
  wait2, IsRead, read1, read2, IsPrint, print1, print2, IsGone, never, waited, Step, of_child,
  fork_fails, waits as waits_for, wait_fails, reads as reads_from, prints, Run,
}
use grade15_1linux.Pipe.Order.{holds, wrote, gone, held_by, held_by_self, length-tally}
use grade15_1linux.Pipe.Blocks.{blocks}
use grade15_1linux.Pipe.Points.{reads, waits}
use grade15_1linux.Pipe.Kept.{Inv}
use grade15_1linux.Pipe.Ending.{Run-Inv}

-- What a child can do.
data Situation (outpipe : Bytes) (c : Who) (p : Child) (lock : Option Who) (pipe : Bytes)
    : Type 0 where
  able :
      (q : Child) (l : Option Who) (b : Bytes)
      → advance c outpipe p lock pipe ≡ some (q, l, b)
      → Situation outpipe c p lock pipe
  blocked : (d : Who) → lock ≡ some d → Situation outpipe c p lock pipe
  over : p ≡ ended → Situation outpipe c p lock pipe
  waited_for : IsGone p → Situation outpipe c p lock pipe

situation :
    (outpipe : Bytes) (c : Who) (p : Child) (lock : Option Who) (pipe : Bytes)
    → Situation outpipe c p lock pipe
unfolding advance
situation outpipe c absent lock pipe = waited_for never
situation outpipe c locking none pipe = able formatting (some c) pipe refl
situation outpipe c locking (some d) pipe = blocked d refl
situation outpipe c formatting lock pipe = able (writing (sprintf c outpipe)) lock pipe refl
situation outpipe c (writing b) lock pipe = able unlocking lock (pipe ++ take count b) refl
situation outpipe c unlocking lock pipe = able exiting (unlock c lock) pipe refl
situation outpipe c exiting lock pipe = able ended lock pipe refl
situation outpipe c ended lock pipe = over refl
situation outpipe c reaped lock pipe = waited_for waited

-- The holder of the lock is not blocked by it.
holder_able :
    (outpipe : Bytes) (c : Who) (p : Child) (lock : Option Who) (pipe : Bytes)
    → holds p ≡ true
    → (t : Child × Option Who × Bytes) × (advance c outpipe p lock pipe ≡ some t)
unfolding advance
holder_able outpipe c absent lock pipe h = absurd (cc h)
holder_able outpipe c locking lock pipe h = absurd (cc h)
holder_able outpipe c formatting lock pipe h = ((writing (sprintf c outpipe), lock, pipe), refl)
holder_able outpipe c (writing b) lock pipe h = ((unlocking, lock, pipe ++ take count b), refl)
holder_able outpipe c unlocking lock pipe h = ((exiting, unlock c lock, pipe), refl)
holder_able outpipe c exiting lock pipe h = absurd (cc h)
holder_able outpipe c ended lock pipe h = absurd (cc h)
holder_able outpipe c reaped lock pipe h = absurd (cc h)

-- A child that the parent has waited for has written.
gone_le-wrote : (p : Child) → gone p ≤ wrote p
gone_le-wrote absent = omega arith
gone_le-wrote locking = omega arith
gone_le-wrote formatting = omega arith
gone_le-wrote (writing _) = omega arith
gone_le-wrote unlocking = omega arith
gone_le-wrote exiting = omega arith
gone_le-wrote ended = omega arith
gone_le-wrote reaped = omega arith

blocks_nonempty :
    (outpipe : Bytes) (r : ℕ) (order : List Who)
    → r < length order
    → blocks outpipe (drop r order) ≢ []
blocks_nonempty outpipe r [] h e = absurd (omega arith)
blocks_nonempty outpipe zero (c ∷ order) h e = cc e
blocks_nonempty outpipe (suc r) (c ∷ order) h e = blocks_nonempty outpipe r order (omega arith) e

read-waits : {p : Parent} → IsRead p → waits p ≡ suc (reads p)
read-waits read1 = refl
read-waits read2 = refl

module _ (outpipe inpipe : Bytes) (size : length outpipe ≡ 100) (s : System)
    (inv : Inv outpipe size s) where
  abbrev CanStep : Type 0
  CanStep = (t : System) × Step outpipe s t

  holder_steps : (d : Who) → s.lock ≡ some d → CanStep
  holder_steps d e =
      let held = sym (inv.locks d) ∙ ap (held_by d) e ∙ held_by_self d in
      let (t, able_to) = holder_able outpipe d (child d s) s.lock s.pipe held in
      (_, of_child d able_to)

  waiting_progress : IsWait s.parent → CanStep
  waiting_progress wait = elim (situation outpipe first s.child1 s.lock s.pipe) [
    | able q l b e ↦ (_, of_child first e)
    | blocked d e ↦ holder_steps d e
    | over e ↦ (_, waits_for first wait e)
    | waited_for g ↦ elim (situation outpipe second s.child2 s.lock s.pipe) [
      | able q l b e ↦ (_, of_child second e)
      | blocked d e ↦ holder_steps d e
      | over e ↦ (_, waits_for second wait e)
      | waited_for h ↦ (_, wait_fails wait g h)
    ]
  ]

  reading_progress : IsRead s.parent → ((c : Who) → child c s ≢ absent) → CanStep
  reading_progress read there =
      let one_more : waits s.parent ≡ suc (reads s.parent) = read-waits read in
      let more : reads s.parent < length inv.order = omega (
        arith,
        one_more,
        inv.waited there,
        length-tally inv.order,
        inv.tallies first,
        inv.tallies second,
        gone_le-wrote s.child1,
        gone_le-wrote s.child2,
      ) in
      let full = blocks_nonempty outpipe (reads s.parent) inv.order more in
      (_, reads_from read (λ e. full (sym inv.in_pipe ∙ e)))

  progress_at :
      (p : Parent) → s.parent ≡ p → p ≢ finished → ((c : Who) → child c s ≢ absent) → CanStep
  progress_at forking1 e more there =
      (_, fork_fails first (subst (λ p. IsFork p first) (sym e) fork1))
  progress_at forking2 e more there =
      (_, fork_fails second (subst (λ p. IsFork p second) (sym e) fork2))
  progress_at waiting1 e more there = waiting_progress (subst IsWait (sym e) wait1)
  progress_at waiting2 e more there = waiting_progress (subst IsWait (sym e) wait2)
  progress_at reading1 e more there = reading_progress (subst IsRead (sym e) read1) there
  progress_at reading2 e more there = reading_progress (subst IsRead (sym e) read2) there
  progress_at printing1 e more there = (_, prints (subst IsPrint (sym e) print1))
  progress_at printing2 e more there = (_, prints (subst IsPrint (sym e) print2))
  progress_at finished e more there = absurd (more refl)

-- As long as the parent has not finished, some process has a next step, if both forks have succeeded.
pub Run_moves :
    (outpipe inpipe : Bytes) (n : ℕ) (s : System)
    → length outpipe ≡ 100
    → Run outpipe inpipe n s
    → ((c : Who) → child c s ≢ absent)
    → s.parent ≢ finished
    → (t : System) × Step outpipe s t
Run_moves outpipe inpipe n s size run there more =
    progress_at outpipe inpipe size s (Run-Inv outpipe inpipe size run).0 s.parent refl more there
