-- ===== src/BlockDevice.antt =====
-- exp4/exp_4_2.c: the second block device driver. Request is the handler of its queue, Disk its
-- functions over the disk's memory, Module the entry and the exit.
pub mod Request
pub mod Disk
pub mod Module
mod Examples
use grade15_1linux.Common.{ℕ, ◌*◌}

-- `DISK_SIZE`, 16 MB, and `SECTOR_SIZE`.
abbrev pub disk_size : ℕ
disk_size = 16 * 1024 * 1024

abbrev pub sector_size : ℕ
sector_size = 512
