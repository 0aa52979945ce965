-- ===== src/Pipe.antt =====
-- exp1/exp1.5.c: two children that each send a message through one pipe, and their parent, which reads
-- and prints two messages. Order, Blocks, Points, Kept, Forks and Steps are what every
-- interleaving keeps, Ending and Progress how the interleavings end.
pub mod Order
pub mod Blocks
pub mod Points
pub mod Kept
pub mod Forks
pub mod Steps
pub mod Ending
pub mod Progress
mod Examples
use grade15_1linux.Common.{
  ℕ, ◌+◌, ◌≡◌, ◌≢◌, Option, none, some, List, [], ◌∷◌, ◌++◌, Bytes, length, take, drop, text,
  splice,
}

pub data Who : Type 0 where
  first second : Who

-- Where a child is: not there, before `lockf`, before `sprintf`, before `write` with what `outpipe` then
-- holds, before the second `lockf`, before `exit`, ended, and waited for by the parent.
pub data Child : Type 0 where
  absent locking formatting unlocking exiting ended reaped : Child
  writing : Bytes → Child

-- Where the parent is: before each `fork`, `wait`, `read` and `printf`, and behind them.
pub data Parent : Type 0 where
  forking1 forking2 waiting1 reading1 printing1 waiting2 reading2 printing2 finished : Parent

abbrev pub digit : Who → ℕ
digit first = b'1'
digit second = b'2'

-- "child 1 process is sending message!" for the first child.
abbrev pub message : Who → Bytes
message c =
    b'c'
    ∷ b'h'
    ∷ b'i'
    ∷ b'l'
    ∷ b'd'
    ∷ b' '
    ∷ digit c
    ∷ b' '
    ∷ b'p'
    ∷ b'r'
    ∷ b'o'
    ∷ b'c'
    ∷ b'e'
    ∷ b's'
    ∷ b's'
    ∷ b' '
    ∷ b'i'
    ∷ b's'
    ∷ b' '
    ∷ b's'
    ∷ b'e'
    ∷ b'n'
    ∷ b'd'
    ∷ b'i'
    ∷ b'n'
    ∷ b'g'
    ∷ b' '
    ∷ b'm'
    ∷ b'e'
    ∷ b's'
    ∷ b's'
    ∷ b'a'
    ∷ b'g'
    ∷ b'e'
    ∷ b'!'
    ∷ []

-- The bytes that a `write` sends and a `read` asks for.
abbrev pub count : ℕ
count = 50

-- `sprintf` into `outpipe`: the message and a NUL over the start of what happened to be there.
abbrev pub sprintf : Who → Bytes → Bytes
sprintf c outpipe = splice 0 (message c ++ 0 ∷ []) outpipe

-- The lock of the file, as `lockf` keeps it for a process.
abbrev pub unlock : Who → Option Who → Option Who
unlock first (some first) = none
unlock second (some second) = none
unlock c lock = lock

-- The next step of a child, with the bytes that `outpipe` had at the fork: where the child is then, the
-- lock and the pipe. A lock that is held blocks, and a write of at most 4096 bytes is not divided.
unfoldable pub advance :
    Who → Bytes → Child → Option Who → Bytes → Option (Child × Option Who × Bytes)
advance c outpipe locking none pipe = some (formatting, some c, pipe)
advance c outpipe locking (some d) pipe = none
advance c outpipe formatting lock pipe = some (writing (sprintf c outpipe), lock, pipe)
advance c outpipe (writing buffer) lock pipe = some (unlocking, lock, pipe ++ take count buffer)
advance c outpipe unlocking lock pipe = some (exiting, unlock c lock, pipe)
advance c outpipe exiting lock pipe = some (ended, lock, pipe)
advance c outpipe _ lock pipe = none

pub record System : Type 0 where
  pub lock : Option Who
  pub pipe : Bytes
  pub child1 : Child
  pub child2 : Child
  pub parent : Parent
  pub inpipe : Bytes
  pub printed : List Bytes

-- Behind the call of `pipe`, with the bytes that happen to be in `inpipe`.
abbrev pub start_state : Bytes → System
start_state inpipe = record {
  lock = none;
  pipe = [];
  child1 = absent;
  child2 = absent;
  parent = forking1;
  inpipe = inpipe;
  printed = [];
}

-- The parent behind a `fork`, a `wait`, a `read` or a `printf`.
abbrev pub behind : Parent → Parent
behind forking1 = forking2
behind forking2 = waiting1
behind waiting1 = reading1
behind reading1 = printing1
behind printing1 = waiting2
behind waiting2 = reading2
behind reading2 = printing2
behind _ = finished

pub data IsFork : Parent → Who → Type 0 where
  fork1 : IsFork forking1 first
  fork2 : IsFork forking2 second

pub data IsWait : Parent → Type 0 where
  wait1 : IsWait waiting1
  wait2 : IsWait waiting2

pub data IsRead : Parent → Type 0 where
  read1 : IsRead reading1
  read2 : IsRead reading2

pub data IsPrint : Parent → Type 0 where
  print1 : IsPrint printing1
  print2 : IsPrint printing2

-- A child that the parent need not wait for any more.
pub data IsGone : Child → Type 0 where
  never : IsGone absent
  waited : IsGone reaped

abbrev pub pick : Who → Child → Child → Child
pick first p q = p
pick second p q = q

abbrev pub child : Who → System → Child
child c s = pick c s.child1 s.child2

abbrev pub with_child : Who → Child → System → System
with_child c p s = record s { child1 = pick c p s.child1; child2 = pick c s.child2 p }

-- One step of one of the processes. A `fork` may fail; `wait` takes either child that has ended, fails
-- where there is no child, and blocks otherwise; a `read` blocks on an empty pipe, since the parent
-- keeps the other end open itself.
pub data Step (outpipe : Bytes) (s : System) : System → Type 0 where
  of_child :
      (c : Who) {p : Child} {lock : Option Who} {pipe : Bytes}
      → advance c outpipe (child c s) s.lock s.pipe ≡ some (p, lock, pipe)
      → Step outpipe s (record (with_child c p s) { lock = lock; pipe = pipe })
  forks :
      (c : Who)
      → IsFork s.parent c
      → Step outpipe s (record (with_child c locking s) { parent = behind s.parent })
  fork_fails :
      (c : Who) → IsFork s.parent c → Step outpipe s (record s { parent = behind s.parent })
  waits :
      (c : Who)
      → IsWait s.parent
      → child c s ≡ ended
      → Step outpipe s (record (with_child c reaped s) { parent = behind s.parent })
  wait_fails :
      IsWait s.parent
      → IsGone s.child1
      → IsGone s.child2
      → Step outpipe s (record s { parent = behind s.parent })
  reads :
      IsRead s.parent
      → s.pipe ≢ []
      → Step outpipe s (record s {
        parent = behind s.parent;
        inpipe = splice 0 (take count s.pipe) s.inpipe;
        pipe = drop count s.pipe;
      })
  prints :
      IsPrint s.parent
      → Step outpipe s
          (record s { parent = behind s.parent; printed = s.printed ++ text s.inpipe ∷ [] })

-- The states after `n` steps of the processes, in any order.
pub data Run (outpipe inpipe : Bytes) : ℕ → System → Type 0 where
  start : Run outpipe inpipe 0 (start_state inpipe)
  next :
      {n : ℕ} {s t : System}
      → Run outpipe inpipe n s
      → Step outpipe s t
      → Run outpipe inpipe (1 + n) t
