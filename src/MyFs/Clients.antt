-- ===== src/MyFs/Clients.antt =====
-- course_design/test1.c, course_design/test2.c, course_design/test1rdonly.c and
-- course_design/test2rdonly.c: programs that open a file of the file system, write a message to it (the
-- first two) and read from it.
pub mod Buffer
pub mod Exchange
use grade15_1linux.Common.{
  ℕ, ◌*◌, Bool, true, false, Option, none, some, List, [], ◌∷◌, Bytes, length, replicate, text,
  strlen, ℤ, pos, negsuc, is_negative, is_nonzero, ◌==◌, if◌then◌else◌,
}
use grade15_1linux.MyFs.Fifo.{Kfifo}
use grade15_1linux.MyFs.File.{
  OpenCalls, MyfsFileInfo, myfs_file_open, myfs_file_read, myfs_file_write, myfs_file_release,
}

-- A line that a program prints.
pub data Line : Type 0 where
  wrong_open wrong_write : Line
  read_bytes : ℤ → Line
  read_buffer : Bytes → Line

-- "I am myfs" with its NUL.
unfoldable pub message : Bytes
message = b'I' ∷ b' ' ∷ b'a' ∷ b'm' ∷ b' ' ∷ b'm' ∷ b'y' ∷ b'f' ∷ b's' ∷ 0 ∷ []

abbrev pub len : ℕ
len = 10

-- What a program gets from the kernel besides the calls of the file system: what the path resolves to
-- for the mode of the `open` (0, or an error), the calls in the file's own `open`, the number of the
-- file, and whether `malloc` succeeds.
pub record Answers : Type 0 where
  pub path : ℤ
  pub calls : OpenCalls
  pub fd : ℕ
  pub malloc : Bool

-- The value of a program, what it has printed, and the buffer behind the files.
pub record Ended (F : Type 0) : Type 0 where
  pub code : ℤ
  pub lines : List Line
  pub fifo : F

-- The C library gives -1 for every error of the kernel.
abbrev pub libc : ℤ → ℤ
libc (pos n) = pos n
libc (negsuc n) = negsuc 0

-- `open`: the number of the file, or -1, and what `file->private_data` points to.
unfoldable pub open_file : Answers → ℤ × Option MyfsFileInfo
open_file a =
    let (ret, private_data) = myfs_file_open a.calls none in
    if is_nonzero a.path
    then (negsuc 0, none)
    else (if is_nonzero ret then (negsuc 0, private_data) else (pos a.fd, private_data))

-- `ret != len`, where an int is compared with a size_t: -1 becomes the largest number.
abbrev pub differs : ℤ → ℕ → Bool
differs (pos n) m = if n == m then false else true
differs (negsuc n) m = true

-- `%s` of a buffer: without a NUL in it, the reading runs out of the buffer.
unfoldable pub formatted : Bytes → Option Bytes
formatted b = if strlen b == length b then none else some (text b)

-- Each function below is `none` where the program faults.
module _ {F : Type 0} (k : Kfifo F) where
  -- From `malloc` on. A null pointer from it goes into `memset`.
  unfoldable pub read_back : Answers → Option MyfsFileInfo → F → Option (Ended F)
  read_back a private_data fifo =
      let (ret, buffer, fifo') = myfs_file_read k (replicate (2 * len) 0) (2 * len) fifo in
      if a.malloc
      then elim (formatted buffer) [
        | none ↦ none
        | some string ↦ elim (myfs_file_release private_data) [
          | none ↦ none
          | some _ ↦ some (record {
            code = pos 0;
            lines = read_bytes (libc ret) ∷ read_buffer string ∷ [];
            fifo = fifo';
          })
        ]
      ]
      else none

  unfoldable pub test1 : Answers → F → Option (Ended F)
  test1 a fifo =
      let (fd, private_data) = open_file a in
      let (ret, fifo') = myfs_file_write k message len fifo in
      if is_negative fd
      then some (record { code = negsuc 0; lines = wrong_open ∷ []; fifo = fifo })
      else (if differs (libc ret) len
          then some (record { code = negsuc 0; lines = wrong_write ∷ []; fifo = fifo' })
          else read_back a private_data fifo')

  unfoldable pub test1rdonly : Answers → F → Option (Ended F)
  test1rdonly a fifo =
      let (fd, private_data) = open_file a in
      if is_negative fd
      then some (record { code = negsuc 0; lines = wrong_open ∷ []; fifo = fifo })
      else read_back a private_data fifo

  -- The programs for the file First/two: they differ from the others in the path alone.
  unfoldable pub test2 : Answers → F → Option (Ended F)
  unfolding test1
  test2 = test1

  unfoldable pub test2rdonly : Answers → F → Option (Ended F)
  unfolding test1rdonly
  test2rdonly = test1rdonly
