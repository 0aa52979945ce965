-- ===== src/BlockDevice/Disk.antt =====
-- exp4/exp_4_2.c: `device_read` and `device_write`, on the memory of the disk.
pub mod Read
pub mod Write
use grade15_1linux.Common.{
  ℕ, ◌+◌, ◌-◌, ◌*◌, ◌%◌, ◌^◌, Bool, true, false, Option, none, some, Bytes, length, take, drop,
  slice, splice, ◌++◌, ltb, leb, ◌==◌, if◌then◌else◌, ℤ, pos, eio, efault, ◌&&◌, ◌||◌,
}
use grade15_1linux.UserCopy.{UserCopy}
use grade15_1linux.BlockDevice.{disk_size}

-- The product `sector * 512` has 64 bits, and `nsectors * 512` has 32.
abbrev pub read_offset : ℕ → ℕ
read_offset sector = sector * 512 % 2 ^ 64

abbrev pub read_length : ℕ → ℕ
read_length nsectors = nsectors * 512 % 2 ^ 32

-- The value and the page; `none` is an access outside the disk or the page. No byte, no access.
pub device_read : Bytes → ℕ → Bytes → ℕ → Option (ℤ × Bytes)
device_read disk sector page nsectors =
    let offset = read_offset sector in
    let count = read_length nsectors in
    if ltb disk_size ((offset + count) % 2 ^ 64)
    then some (eio, page)
    else if count == 0 || (leb (offset + count) (length disk) && leb count (length page))
    then some (pos count, splice 0 (slice offset count disk) page)
    else none

-- What `device_write` leaves: its value, `*offset` and the disk.
pub record Writing : Type 0 where
  pub code : ℤ
  pub offset : ℕ
  pub disk : Bytes

-- `DISK_SIZE - *offset`, as a `size_t`: it wraps behind the end of the disk.
abbrev pub free_space : ℕ → ℕ
free_space offset = (disk_size + 2 ^ 64 - offset) % 2 ^ 64

-- `buffer` is the user's memory from the pointer on; `none` is an access outside the disk, to which
-- `copy_from_user` is not called.
pub device_write : UserCopy → Bytes → ℕ → ℕ → Bytes → Option Writing
device_write u buffer count offset disk =
    if ltb (free_space offset) count
    then some (record { code = efault; offset = offset; disk = disk })
    else if count == 0 || leb (offset + count) (length disk)
    then (let (rest, left) = u.copy_from_user (drop offset disk) buffer count in
        let disk' = take offset disk ++ rest in
        if left == 0
        then some (record { code = pos count; offset = offset + count; disk = disk' })
        else some (record { code = efault; offset = offset; disk = disk' }))
    else none
