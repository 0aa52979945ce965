-- ===== src/ProcHello/Message.antt =====
-- exp3/exp3.1.c: what one call of `proc_write` or `proc_read` does to the message in PROC_MSG.
use grade15_1linux.Common.{
  ℕ, ◌-◌, ◌≤◌, ◌<◌, ◌≡◌, refl, ◌∙◌, false, some, ◌++◌, arith, ◌==◌, Bytes, strlen, text, set, take,
  drop, length, get_elem?, length-set, length-take, length-append, length-drop, get_elem?-set_self,
  get_elem?-set_ne, get_elem?-take, get_elem?-append_left, strlen-le, strlen-le-length,
  text-set_nul, ℤ, pos, efault, einval, Bool-cases, ==_iff, inl, inr,
}
use grade15_1linux.UserCopy.{UserCopy, CopyLaws}
use grade15_1linux.ProcHello.{Buffer, proc_write, proc_read, proc_msg_len}

-- The array keeps its size and a NUL in its last byte, so every C string in it ends inside it.
pub record IsTerminated (s : Buffer) : Type 0 where
  pub sized : length s.proc_msg ≡ proc_msg_len
  pub last : get_elem? s.proc_msg (proc_msg_len - 1) ≡ some 0

-- The NUL written at `count` keeps the last byte NUL.
pub last-set :
    (msg : Bytes) (count : ℕ)
    → length msg ≡ 256
    → count ≤ 255
    → get_elem? msg 255 ≡ some 0
    → get_elem? (set msg count 0) 255 ≡ some 0
last-set msg count sized le last = elim (Bool-cases (count == 255)) [
  | inl e ↦
      let at_end = (==_iff count 255).0 e in rw at_end (get_elem?-set_self msg 255 0 (omega arith))
  | inr ne ↦ get_elem?-set_ne msg count 255 0 (λ e. ground arith) ∙ last
]

-- `proc_write` keeps the message terminated on every branch, also where the copy from the user
-- fails half-way, whatever the count and the user's bytes are.
pub proc_write-IsTerminated :
    (u : UserCopy) (buffer : Bytes) (count : ℕ) (s : Buffer)
    → CopyLaws u.copy_from_user
    → IsTerminated s
    → IsTerminated (proc_write u buffer count s).1
unfolding proc_write
proc_write-IsTerminated u buffer count s laws t = ground (
  arith,
  laws.size s.proc_msg buffer count,
  laws.beyond s.proc_msg buffer count 255,
  length-set (u.copy_from_user s.proc_msg buffer count).0 count 0,
  last-set (u.copy_from_user s.proc_msg buffer count).0 count,
)

-- `proc_read` leaves the message alone.
pub proc_read-IsTerminated :
    (u : UserCopy) (buffer : Bytes) (count position : ℕ) (s : Buffer)
    → IsTerminated s
    → IsTerminated (proc_read u buffer count position s).after
unfolding proc_read
proc_read-IsTerminated u buffer count position s t = ground arith

pub strlen-lt : (s : Buffer) → IsTerminated s → strlen s.proc_msg ≤ 255
strlen-lt s t = strlen-le s.proc_msg 255 t.last

-- The message after a whole copy of `count` bytes.
pub text_written :
    (msg buffer : Bytes) (count : ℕ)
    → length msg ≡ 256
    → count ≤ 255
    → count ≤ length buffer
    → text (set (take count buffer ++ drop count msg) count 0) ≡ text (take count buffer)
text_written msg buffer count sized le long =
    text-set_nul (take count buffer) (drop count msg) count
      (omega (arith, length-take count buffer))
      (omega (
        arith,
        length-append (take count buffer) (drop count msg),
        length-take count buffer,
        length-drop count msg,
      ))

-- The outcome of a write: too long, and nothing changes; a failed copy, and only the bytes below
-- `count` may change; a whole copy, and the message is the user's text up to its first NUL.
pub data Written (buffer : Bytes) (count : ℕ) (s : Buffer) (r : ℤ × Buffer) : Type 0 where
  too_long : 255 < count → r ≡ (einval, s) → Written buffer count s r
  faulted :
      count ≤ 255
      → r.0 ≡ efault
      → ((i : ℕ) → count ≤ i → get_elem? r.1.proc_msg i ≡ get_elem? s.proc_msg i)
      → Written buffer count s r
  stored :
      count ≤ 255
      → r.0 ≡ pos count
      → text r.1.proc_msg ≡ text (take count buffer)
      → Written buffer count s r

-- A first read gives the whole message whatever `count` asks for: with a `count` below the length
-- of the message, the user's byte at index `count`, behind the end of the buffer that the caller
-- announced, is overwritten, and the value returned is larger than `count`.
pub proc_read_overruns :
    (u : UserCopy) (buffer : Bytes) (count position : ℕ) (s : Buffer)
    → CopyLaws u.copy_to_user
    → s.finished ≡ false
    → (u.copy_to_user buffer s.proc_msg (strlen s.proc_msg)).1 ≡ 0
    → strlen s.proc_msg ≤ length buffer
    → count < strlen s.proc_msg
    → (get_elem? (proc_read u buffer count position s).buffer count ≡ get_elem? s.proc_msg count)
      × ((proc_read u buffer count position s).code ≡ pos (strlen s.proc_msg))
unfolding proc_read
proc_read_overruns u buffer count position s laws first whole room small =
    rw (first, whole, laws.copied buffer s.proc_msg n room (strlen-le-length s.proc_msg) whole)
      (at_count, refl)
  where
    n : ℕ
    n = strlen s.proc_msg

    at_count : get_elem? (take n s.proc_msg ++ drop n buffer) count ≡ get_elem? s.proc_msg count
    at_count =
        get_elem?-append_left (take n s.proc_msg) (drop n buffer) count
          (omega (arith, length-take n s.proc_msg, strlen-le-length s.proc_msg))
        ∙ get_elem?-take n s.proc_msg count small
