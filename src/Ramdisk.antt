-- ===== src/Ramdisk.antt =====
-- exp4/exp_4_2_ramdisk_driver.c and exp4/exp_4_2_original.c: a block device in memory. The two files
-- hold the same driver, written for two versions of the kernel. Request is the handler of the
-- request queue, Ioctl the geometry, Module the entry and the exit of the second.
pub mod Request
pub mod Ioctl
pub mod Module
mod Examples
use grade15_1linux.Common.{ℕ, ◌+◌, ◌*◌, Bool, Option, Bytes}

abbrev pub sector_size : ℕ
sector_size = 512

-- `register_blkdev`, `alloc_disk` and the like are in Module. Here: what the block layer of the
-- kernel offers to the request handler, over its queues Q and its requests R. `fill` stands for
-- the writes of the handler into the block that `bio_data(rq->bio)` points to.
pub record BlkQueue (Q R : Type 0) : Type 0 where
  pub blk_rq_cur_sectors : R → Q → ℕ
  pub blk_rq_pos : R → Q → ℕ
  pub rq_data_dir : R → Q → Bool
  pub bio_data : R → Q → Bytes
  pub fill : R → Bytes → Q → Q
  pub blk_end_request_cur : R → Q → Bool × Q
  pub blk_get_request : Q → Option R × Q
  pub blk_fetch_request : Q → Option R × Q
