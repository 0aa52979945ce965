-- ===== src/BlockDevice/Module.antt =====
-- exp4/exp_4_2.c: `exp_4_2_init` and `exp_4_2_exit`, and what they hold of the kernel.
pub mod Resources
use grade15_1linux.Common.{
  ℕ, ◌/◌, Option, none, some, List, [], ◌∷◌, ℤ, pos, enomem, is_negative, Bool, true, false,
  if◌then◌else◌,
}
use grade15_1linux.BlockDevice.{disk_size, sector_size}

-- What `blk_mq_init_queue` returns, and what the variable `queue` may hold.
pub data QueuePtr : Type 0 where
  no_queue : QueuePtr
  queue_at : ℕ → QueuePtr
  queue_error : ℤ → QueuePtr

-- The calls of the two functions to the kernel, with what they return: `none` is NULL.
pub data Call : Type 0 where
  vmalloc : ℕ → Option ℕ → Call
  register_blkdev : ℤ → Call
  blk_mq_init_queue : QueuePtr → Call
  alloc_disk : Option ℕ → Call
  set_capacity : ℕ → ℕ → Call
  add_disk : ℕ → Call
  del_gendisk : ℕ → Call
  put_disk : ℕ → Call
  blk_cleanup_queue : QueuePtr → Call
  unregister_blkdev : ℤ → Call
  vfree : Option ℕ → Call

pub record Answers : Type 0 where
  pub memory : Option ℕ
  pub major : ℤ
  pub queue : QueuePtr
  pub disk : Option ℕ

-- The static variables, and the calls so far, the last one first.
pub record Driver : Type 0 where
  pub major_num : ℤ
  pub disk_content : Option ℕ
  pub queue : QueuePtr
  pub gendisk_ptr : Option ℕ
  pub calls : List Call

abbrev pub also : Call → Driver → Driver
also c d = record d { calls = c ∷ d.calls }

abbrev pub alloc_memory : Answers → Driver → Driver
alloc_memory a d = record d {
  disk_content = a.memory;
  calls = vmalloc disk_size a.memory ∷ d.calls;
}

abbrev pub register : Answers → Driver → Driver
register a d = record d { major_num = a.major; calls = register_blkdev a.major ∷ d.calls }

abbrev pub init_queue : Answers → Driver → Driver
init_queue a d = record d { queue = a.queue; calls = blk_mq_init_queue a.queue ∷ d.calls }

abbrev pub alloc_gendisk : Answers → Driver → Driver
alloc_gendisk a d = record d { gendisk_ptr = a.disk; calls = alloc_disk a.disk ∷ d.calls }

-- `IS_ERR(queue)` and `PTR_ERR(queue)`: the error, if it is one.
abbrev pub error_of : QueuePtr → Option ℤ
error_of (queue_error e) = some e
error_of _ = none

unfoldable pub exp_4_2_init : Answers → Driver → ℤ × Driver
exp_4_2_init a d =
    let d1 = alloc_memory a d in
    let d2 = register a d1 in
    let d3 = init_queue a d2 in
    let d4 = alloc_gendisk a d3 in
    elim a.memory [
      | none ↦ (enomem, d1)
      | some _ ↦ if is_negative a.major then (a.major, d2) else elim (error_of a.queue) [
        | some e ↦ (e, d3)
        | none ↦ elim a.disk [
          | none ↦ (enomem, also (unregister_blkdev a.major) (also (blk_cleanup_queue a.queue) d4))
          | some g ↦ (pos 0, also (add_disk g) (also (set_capacity g (disk_size / sector_size)) d4))
        ]
      ]
    ]

-- `if (gendiskPtr) …` and `if (queue) …`: an error pointer is not NULL.
abbrev pub drop_disk : Driver → Driver
drop_disk d = elim d.gendisk_ptr [ none ↦ d | some g ↦ also (put_disk g) (also (del_gendisk g) d) ]

abbrev pub drop_queue : Driver → Driver
drop_queue d = elim d.queue [ no_queue ↦ d | q ↦ also (blk_cleanup_queue q) d ]

pub exp_4_2_exit : Driver → Driver
exp_4_2_exit d =
    let d2 = drop_queue (drop_disk d) in
    also (vfree d2.disk_content) (also (unregister_blkdev d2.major_num) d2)
