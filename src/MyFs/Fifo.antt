-- ===== src/MyFs/Fifo.antt =====
-- The kernel's kfifo as course_design/myfs_kernel.c uses it: one buffer of 64 bytes behind the reads
-- and writes of every file. It is not code of the repository: its two macros are fields of a record,
-- and what the file system relies on is a record of laws over the bytes that it holds.
pub mod Queue
use grade15_1linux.Common.{ℕ, ◌-◌, ◌≤◌, ◌≡◌, Bytes, length, take, drop, ◌++◌, min, ℤ, pos}

-- What a macro leaves: its value, the count that it stores, the user's bytes and the buffer.
pub record Transfer (F : Type 0) : Type 0 where
  pub ret : ℤ
  pub moved : ℕ
  pub user : Bytes
  pub fifo : F

pub record Kfifo (F : Type 0) : Type 0 where
  pub to_user : F → Bytes → ℕ → Transfer F
  pub from_user : F → Bytes → ℕ → Transfer F

abbrev pub fifo_size : ℕ
fifo_size = 64

-- The documented behaviour, where the value is 0: a read takes the oldest bytes, as many as are
-- asked for and there; a write appends the first bytes, as many as are given and have room.
pub record FifoLaws {F : Type 0} (k : Kfifo F) : Type 0 where
  pub held : F → Bytes
  pub read_count :
      (f : F) (user : Bytes) (n : ℕ)
      → (k.to_user f user n).ret ≡ pos 0
      → (k.to_user f user n).moved ≡ min n (length (held f))
  pub read_user :
      (f : F) (user : Bytes) (n : ℕ)
      → (k.to_user f user n).ret ≡ pos 0
      → n ≤ length user
      → (k.to_user f user n).user ≡ take n (held f) ++ drop (min n (length (held f))) user
  pub read_held :
      (f : F) (user : Bytes) (n : ℕ)
      → (k.to_user f user n).ret ≡ pos 0
      → held (k.to_user f user n).fifo ≡ drop n (held f)
  pub write_count :
      (f : F) (user : Bytes) (n : ℕ)
      → (k.from_user f user n).ret ≡ pos 0
      → (k.from_user f user n).moved ≡ min n (fifo_size - length (held f))
  pub write_held :
      (f : F) (user : Bytes) (n : ℕ)
      → (k.from_user f user n).ret ≡ pos 0
      → n ≤ length user
      → held (k.from_user f user n).fifo ≡ held f ++ take (min n (fifo_size - length (held f))) user
