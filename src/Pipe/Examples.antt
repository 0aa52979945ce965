-- ===== src/Pipe/Examples.antt =====
-- Runs of exp1/exp1.5.c, and instances of the theorems.
use grade15_1linux.Common.{
  ◌≡◌, ◌≢◌, ◌⊎◌, refl, List, [], ◌∷◌, Bytes, replicate, take, splice, strlen, Option, none, some,
}
use grade15_1linux.Pipe.{
  Who, first, second, Child, absent, locking, formatting, writing, unlocking, exiting, ended,
  reaped, Parent, waiting1, reading1, printing1, waiting2, reading2, printing2, finished, count,
  sprintf, fork1, fork2, wait1, wait2, read1, read2, print1, print2, message, advance, System,
  child, Step, of_child, forks, fork_fails, waits, reads, prints, Run, start, next,
}
use grade15_1linux.Pipe.Ending.{Run_delivers, Run_unfinished}
use grade15_1linux.Pipe.Progress.{Run_moves}

-- What happens to be in the arrays.
abbrev garbage : Bytes
garbage = replicate 100 7

abbrev forked : (s : System) × Run garbage garbage 2 s
forked = (_, next (next start (forks first fork1)) (forks second fork2))

-- A run in which the second child writes first, and its message is printed first.
abbrev sent : Who → Bytes
sent c = take count (sprintf c garbage)

abbrev got : Who → Bytes → Bytes
got c inpipe = splice 0 (take count (sent c)) inpipe

abbrev at : Option Who → Bytes → Child → Child → Parent → Bytes → List Bytes → System
at lock pipe child1 child2 parent inpipe printed = record {
  lock = lock;
  pipe = pipe;
  child1 = child1;
  child2 = child2;
  parent = parent;
  inpipe = inpipe;
  printed = printed;
}

forking : Run garbage garbage 2 (at none [] locking locking waiting1 garbage [])
forking = forked.1

locked : Run garbage garbage 3 (at (some second) [] locking formatting waiting1 garbage [])
unfolding advance
locked = next forking (of_child second refl)

formatted :
    Run garbage garbage 4
      (at (some second) [] locking (writing (sprintf second garbage)) waiting1 garbage [])
unfolding advance
formatted = next locked (of_child second refl)

written :
    Run garbage garbage 5 (at (some second) (sent second) locking unlocking waiting1 garbage [])
unfolding advance
written = next formatted (of_child second refl)

unlocked : Run garbage garbage 6 (at none (sent second) locking exiting waiting1 garbage [])
unfolding advance
unlocked = next written (of_child second refl)

left : Run garbage garbage 7 (at none (sent second) locking ended waiting1 garbage [])
unfolding advance
left = next unlocked (of_child second refl)

reaping : Run garbage garbage 8 (at none (sent second) locking reaped reading1 garbage [])
reaping = next left (waits second wait1 refl)

received : Run garbage garbage 9 (at none [] locking reaped printing1 (got second garbage) [])
received = next reaping (reads read1 (λ e. absurd (cc e)))

told :
    Run garbage garbage 10
      (at none [] locking reaped waiting2 (got second garbage) (message second ∷ []))
unfolding strlen
told = next received (prints print1)

locked1 :
    Run garbage garbage 11
      (at (some first) [] formatting reaped waiting2 (got second garbage) (message second ∷ []))
unfolding advance
locked1 = next told (of_child first refl)

formatted1 : Run garbage garbage 12 (
    at
      (some first)
      []
      (writing (sprintf first garbage))
      reaped
      waiting2
      (got second garbage)
      (message second ∷ []))
unfolding advance
formatted1 = next locked1 (of_child first refl)

written1 : Run garbage garbage 13 (
    at
      (some first)
      (sent first)
      unlocking
      reaped
      waiting2
      (got second garbage)
      (message second ∷ []))
unfolding advance
written1 = next formatted1 (of_child first refl)

unlocked1 :
    Run garbage garbage 14
      (at none (sent first) exiting reaped waiting2 (got second garbage) (message second ∷ []))
unfolding advance
unlocked1 = next written1 (of_child first refl)

left1 :
    Run garbage garbage 15
      (at none (sent first) ended reaped waiting2 (got second garbage) (message second ∷ []))
unfolding advance
left1 = next unlocked1 (of_child first refl)

reaping1 :
    Run garbage garbage 16
      (at none (sent first) reaped reaped reading2 (got second garbage) (message second ∷ []))
reaping1 = next left1 (waits first wait2 refl)

received1 :
    Run garbage garbage 17
      (at none [] reaped reaped printing2 (got first (got second garbage)) (message second ∷ []))
received1 = next reaping1 (reads read2 (λ e. absurd (cc e)))

complete : Run garbage garbage 18 (
    at none [] reaped reaped finished
      (got first (got second garbage))
      (message second ∷ message first ∷ []))
unfolding strlen
complete = next received1 (prints print2)

abbrev end : System
end =
    at none [] reaped reaped finished (got first (got second garbage))
      (message second ∷ message first ∷ [])

Run_delivers_example :
    (end.printed ≡ message first ∷ message second ∷ [])
    ⊎ (end.printed ≡ message second ∷ message first ∷ [])
Run_delivers_example = Run_delivers garbage garbage refl 18 end complete refl

-- The first fork fails.
abbrev alone : (s : System) × Run garbage garbage 1 s
alone = (_, next start (fork_fails first fork1))

Run_unfinished_example : alone.0.parent ≢ finished
Run_unfinished_example = Run_unfinished garbage garbage refl 1 alone.0 first alone.1 refl

there : (c : Who) → child c forked.0 ≢ absent
there first = λ e. absurd (cc e)
there second = λ e. absurd (cc e)

Run_moves_example : (t : System) × Step garbage forked.0 t
Run_moves_example = Run_moves garbage garbage 2 forked.0 refl forked.1 there (λ e. absurd (cc e))
