-- ===== src/ProcHello/Interleaving.antt =====
-- exp3/exp3.1.c: `proc_write` and `proc_read` called by any number of processes at once. Nothing keeps them
-- apart: they share PROC_MSG and `finished`, one access at a time. Safety is what every interleaving
-- keeps, Progress that each call ends, Alone and Reading what an undisturbed call does, RoundTrip
-- what is read after a write.
pub mod Safety
pub mod Progress
pub mod Alone
pub mod Reading
pub mod RoundTrip
mod Examples
use grade15_1linux.Common.{
  ℕ, ◌+◌, ◌-◌, ◌≡◌, Bool, true, false, Option, none, some, List, [], ◌∷◌, ◌++◌, ltb, ◌==◌,
  if◌then◌else◌, Bytes, get_elem?, set, length, ℤ, pos, efault, einval,
}
use grade15_1linux.ProcHello.{Buffer, initial, proc_msg_len}

-- The three calls of `strlen` in `proc_read`: for the copy, for `*pos`, and for the value, these two with
-- the bytes that the user has got.
pub data Strlen : Type 0 where
  for_copy : Strlen
  for_position for_value : Bytes → Strlen

-- Where a process is: outside the handlers, at the start of a `proc_write` with its buffer and `count`,
-- before the copy of the byte `i`, before the NUL, at the start of a `proc_read`, before either
-- assignment to `finished`, in a `strlen` before the byte `i`, in the copy of `n` bytes to the user with those
-- copied, and behind a read with its value and the bytes that it delivered.
pub data Point : Type 0 where
  outside testing clearing marking : Point
  checking : Bytes → ℕ → Point
  copying : Bytes → ℕ → ℕ → Point
  ending : ℕ → Point
  measuring : Strlen → ℕ → Point
  delivering : ℕ → Bytes → Point
  wrote : ℤ → Point
  read : ℤ → Bytes → Point

-- Behind a `strlen` that has found `n`.
abbrev pub measured : Strlen → ℕ → Point
measured for_copy n = delivering n []
measured (for_position out) n = measuring (for_value out) 0
measured (for_value out) n = read (pos n) out

-- The next step of a process, on the shared variables: `none` outside the handlers, and where it would
-- read or write outside PROC_MSG.
unfoldable pub advance : Buffer → Point → Option (Point × Buffer)
advance s (checking buffer count) =
    if ltb (proc_msg_len - 1) count
    then some (wrote einval, s)
    else some (copying buffer count 0, s)
advance s (copying buffer count i) =
    if ltb i count
    then (elim (get_elem? buffer i) [
      | none ↦ some (wrote efault, s)
      | some b ↦
          if ltb i (length s.proc_msg)
          then some (copying buffer count (i + 1), record s { proc_msg = set s.proc_msg i b })
          else none
    ])
    else some (ending count, s)
advance s (ending count) =
    if ltb count (length s.proc_msg)
    then some (wrote (pos count), record s { proc_msg = set s.proc_msg count 0 })
    else none
advance s testing = some (if s.finished then clearing else marking, s)
advance s clearing = some (read (pos 0) [], record s { finished = false })
advance s marking = some (measuring for_copy 0, record s { finished = true })
advance s (measuring k i) = elim (get_elem? s.proc_msg i) [
  | none ↦ none
  | some b ↦ some (if b == 0 then measured k i else measuring k (i + 1), s)
]
advance s (delivering n out) =
    if ltb (length out) n
    then (elim (get_elem? s.proc_msg (length out)) [
      | none ↦ none
      | some b ↦ some (delivering n (out ++ b ∷ []), s)
    ])
    else some (measuring (for_position out) 0, s)
advance s _ = none

-- A copy from or to the user may fault before any byte.
abbrev pub fault : Point → Option Point
fault (copying buffer count i) = some (wrote efault)
fault (delivering n out) = some (read efault out)
fault _ = none

abbrev pub is_outside : Point → Bool
is_outside outside = true
is_outside (wrote code) = true
is_outside (read code out) = true
is_outside _ = false

-- The shared variables, and where each process is.
pub record System : Type 0 where
  pub shared : Buffer
  pub processes : ℕ → Point

abbrev pub move : ℕ → Point → (ℕ → Point) → ℕ → Point
move p x f q = if p == q then x else f q

abbrev pub loaded : System
loaded = record { shared = initial; processes = λ p. outside }

-- One step of one process: one of its handler, a fault of the copy, or a new call.
pub data Step (s : System) : System → Type 0 where
  acts :
      (p : ℕ) {x : Point} {b : Buffer}
      → advance s.shared (s.processes p) ≡ some (x, b)
      → Step s (record { shared = b; processes = move p x s.processes })
  faults :
      (p : ℕ) {x : Point}
      → fault (s.processes p) ≡ some x
      → Step s (record { shared = s.shared; processes = move p x s.processes })
  writes :
      (p : ℕ) (buffer : Bytes) (count : ℕ)
      → is_outside (s.processes p) ≡ true
      → Step s
          (record { shared = s.shared; processes = move p (checking buffer count) s.processes })
  reads :
      (p : ℕ)
      → is_outside (s.processes p) ≡ true
      → Step s (record { shared = s.shared; processes = move p testing s.processes })

-- The states that the processes reach after a load of the module, in any order.
pub data Run : System → Type 0 where
  start : Run loaded
  next : {s t : System} → Run s → Step s t → Run t
