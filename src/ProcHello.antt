-- ===== src/ProcHello.antt =====
-- exp3/exp3.1.c: the module that makes the file /proc/hello/world, and the handlers behind it.
pub mod Message
pub mod Session
pub mod Lifetime
pub mod Interleaving
mod Examples
use Prim.Native.String.{String}
use grade15_1linux.Common.{
  ℕ, zero, suc, ◌+◌, ◌-◌, ◌≤◌, ◌<◌, ◌≡◌, refl, Bool, true, false, Option, none, some, List, [], ◌∷◌,
  ◌++◌, arith, ltb, ◌==◌, if◌then◌else◌, Bytes, strlen, set, replicate, ℤ, pos, efault, einval,
  enomem,
}
use grade15_1linux.UserCopy.{UserCopy}

abbrev pub proc_msg_len : ℕ
proc_msg_len = 256

-- "Hello, World!\n", and NUL up to the end of the array.
abbrev pub initial_msg : Bytes
initial_msg =
    b'H'
    ∷ b'e'
    ∷ b'l'
    ∷ b'l'
    ∷ b'o'
    ∷ b','
    ∷ b' '
    ∷ b'W'
    ∷ b'o'
    ∷ b'r'
    ∷ b'l'
    ∷ b'd'
    ∷ b'!'
    ∷ 10
    ∷ replicate 242 0

-- The static variables that the handlers share.
pub record Buffer : Type 0 where
  pub proc_msg : Bytes
  pub finished : Bool

abbrev pub initial : Buffer
initial = record { proc_msg = initial_msg; finished = false }

-- What a call of `proc_read` leaves: its value, the user's buffer, `*pos` and the variables.
pub record Reading : Type 0 where
  pub code : ℤ
  pub buffer : Bytes
  pub position : ℕ
  pub after : Buffer

module _ (u : UserCopy) where
  -- `buffer` is the user's memory from the pointer on.
  pub proc_write : Bytes → ℕ → Buffer → ℤ × Buffer
  proc_write buffer count s =
      if ltb (proc_msg_len - 1) count
      then (einval, s)
      else let (msg, left) = u.copy_from_user s.proc_msg buffer count in
        if left == 0
        then (pos count, record s { proc_msg = set msg count 0 })
        else (efault, record s { proc_msg = msg })

  -- As in the source, `count` is not looked at.
  pub proc_read : Bytes → ℕ → ℕ → Buffer → Reading
  proc_read buffer count position s =
      if s.finished
      then record {
        code = pos 0;
        buffer = buffer;
        position = position;
        after = record s { finished = false };
      }
      else let n = strlen s.proc_msg in
        let (out, left) = u.copy_to_user buffer s.proc_msg n in
        let s' = record s { finished = true } in
        if left == 0
        then record { code = pos n; buffer = out; position = position + n; after = s' }
        else record { code = efault; buffer = out; position = position; after = s' }

-- The calls that the module makes to /proc, the last one first, with what they return: an address,
-- or `none` for NULL.
pub data Call : Type 0 where
  proc_mkdir : Option ℕ → Call
  proc_create : Option ℕ → Option ℕ → Call
  remove_file : Option ℕ → Call
  remove_dir : Call

-- The answers of the kernel to `proc_mkdir` and `proc_create`.
pub record ProcFs : Type 0 where
  pub mkdir : Option ℕ
  pub create : Option ℕ

-- The module's two pointers, and its calls so far.
pub record Module : Type 0 where
  pub proc_mkdir_success : Option ℕ
  pub proc_create_success : Option ℕ
  pub calls : List Call

pub initexp3_1 : ProcFs → Module → ℤ × Module
initexp3_1 k m = elim k.mkdir [
  | none ↦ (enomem, record m { proc_mkdir_success = none; calls = proc_mkdir none ∷ m.calls })
  | some dir ↦ elim k.create [
    | none ↦ (
      enomem,
      record {
        proc_mkdir_success = some dir;
        proc_create_success = none;
        calls = proc_create (some dir) none ∷ proc_mkdir (some dir) ∷ m.calls;
      },
    )
    | some file ↦ (
      pos 0,
      record {
        proc_mkdir_success = some dir;
        proc_create_success = some file;
        calls = proc_create (some dir) (some file) ∷ proc_mkdir (some dir) ∷ m.calls;
      },
    )
  ]
]

pub exitexp3_1 : Module → Module
exitexp3_1 m = record m { calls = remove_dir ∷ remove_file m.proc_mkdir_success ∷ m.calls }
