-- ===== src/MyFs/File.antt =====
-- course_design/myfs_kernel.c: the operations of an open file of the file system.
pub mod Access
pub mod Session
use grade15_1linux.Common.{
  ℕ, ◌+◌, ◌%◌, ◌^◌, ◌≡◌, Bool, true, false, ◌&&◌, not, Option, none, some, Bytes, ℤ, pos, eio,
  enomem, eacces, is_nonzero, ◌==◌, if◌then◌else◌,
}
use grade15_1linux.MyFs.Fifo.{Transfer, Kfifo}

-- `struct myfs_file_info`; `open_count` is the bit pattern of an int.
pub record MyfsFileInfo : Type 0 where
  pub open_time : ℕ
  pub open_count : ℕ

-- What the kernel answers to the calls of one `open`: the block of `kmalloc` with the bytes that
-- happen to be in it, the time, the user, and the value of `inode_permission` (0 if the access is
-- allowed, an error if not).
pub record OpenCalls : Type 0 where
  pub kmalloc : Option MyfsFileInfo
  pub now : ℕ
  pub uid : ℕ
  pub inode_permission : ℤ

-- C's `!` on an unsigned number.
abbrev pub lnot : ℕ → ℕ
lnot n = if n == 0 then 1 else 0

-- The value, and what `file->private_data` points to.
unfoldable pub myfs_file_open : OpenCalls → Option MyfsFileInfo → ℤ × Option MyfsFileInfo
myfs_file_open c private_data = elim c.kmalloc [
  | none ↦ (enomem, private_data)
  | some info ↦
      let info' = record info { open_time = c.now; open_count = (info.open_count + 1) % 2 ^ 32 } in
      if not (is_nonzero c.inode_permission) && lnot c.uid == 0
      then (eacces, some info')
      else (pos 0, some info')
]

-- The version of course_design/myfs_kernel_ubuntu.c, whose check is commented out.
pub myfs_file_open_ubuntu : OpenCalls → Option MyfsFileInfo → ℤ × Option MyfsFileInfo
myfs_file_open_ubuntu c private_data = elim c.kmalloc [
  | none ↦ (enomem, private_data)
  | some info ↦
      (pos 0, some (record info { open_time = c.now; open_count = (info.open_count + 1) % 2 ^ 32 }))
]

module _ {F : Type 0} (k : Kfifo F) where
  -- The value, the user's bytes, and the buffer that all files share.
  unfoldable pub myfs_file_read : Bytes → ℕ → F → ℤ × Bytes × F
  myfs_file_read buf count fifo =
      let t = k.to_user fifo buf count in
      if is_nonzero t.ret then (eio, t.user, t.fifo) else (pos t.moved, t.user, t.fifo)

  pub myfs_file_write : Bytes → ℕ → F → ℤ × F
  myfs_file_write buf count fifo =
      let t = k.from_user fifo buf count in
      if is_nonzero t.ret then (eio, t.fifo) else (pos t.moved, t.fifo)

-- `release` prints the fields of the block behind `file->private_data`, and frees it: the value, and
-- the block that is freed. A null pointer is a fault.
unfoldable pub myfs_file_release : Option MyfsFileInfo → Option (ℤ × MyfsFileInfo)
myfs_file_release none = none
myfs_file_release (some info) = some (pos 0, info)
