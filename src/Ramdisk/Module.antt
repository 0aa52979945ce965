-- ===== src/Ramdisk/Module.antt =====
-- exp4/exp_4_2_original.c: `my_init` and `my_exit`. exp4/exp_4_2_ramdisk_driver.c has the same functions, but
-- takes its queue from a call of `blk_put_queue` with two arguments, which is no call of the kernel.
pub mod Resources
use grade15_1linux.Common.{
  ℕ, ◌+◌, ◌-◌, ◌*◌, ◌/◌, ◌%◌, ◌^◌, ◌≡◌, Bool, true, false, Option, none, some, List, [], ◌∷◌, ℤ,
  pos, enomem, is_negative, if◌then◌else◌,
}
use grade15_1linux.Ramdisk.{sector_size}

-- The calls of the two functions to the kernel, with their arguments and what they return: `none`
-- is NULL.
pub data Call : Type 0 where
  vmalloc : ℕ → Option ℕ → Call
  blk_init_queue : Option ℕ → Call
  blk_queue_logical_block_size : Option ℕ → ℕ → Call
  register_blkdev : ℤ → Call
  alloc_disk : Option ℕ → Call
  set_capacity : Option ℕ → ℕ → Call
  add_disk : Option ℕ → Call
  del_gendisk : Option ℕ → Call
  put_disk : Option ℕ → Call
  unregister_blkdev : ℤ → Call
  blk_cleanup_queue : Option ℕ → Call
  vfree : Option ℕ → Call

-- What the kernel answers to the four calls that may fail.
pub record Answers : Type 0 where
  pub memory : Option ℕ
  pub queue : Option ℕ
  pub major : ℤ
  pub disk : Option ℕ

-- The static variables, and the calls so far, the last one first.
pub record Driver : Type 0 where
  pub mybdrv_ma_no : ℤ
  pub disk_size : ℕ
  pub ramdisk : Option ℕ
  pub my_gd : Option ℕ
  pub my_request_queue : Option ℕ
  pub calls : List Call

-- `disk_size` is an int, whose product wraps at 32 bits.
abbrev pub size_in_bytes : ℕ → ℕ
size_in_bytes diskmb = diskmb * 1024 * 1024 % 2 ^ 32

abbrev pub vmalloc_disk : Answers → ℕ → Driver → Driver
vmalloc_disk a diskmb d = record d {
  disk_size = size_in_bytes diskmb;
  ramdisk = a.memory;
  calls = vmalloc (size_in_bytes diskmb) a.memory ∷ d.calls;
}

abbrev pub init_queue : Answers → Driver → Driver
init_queue a d = record d { my_request_queue = a.queue; calls = blk_init_queue a.queue ∷ d.calls }

abbrev pub register : Answers → Driver → Driver
register a d = record d {
  mybdrv_ma_no = a.major;
  calls =
      register_blkdev a.major
      ∷ blk_queue_logical_block_size d.my_request_queue sector_size
      ∷ d.calls;
}

abbrev pub alloc_gendisk : Answers → Driver → Driver
alloc_gendisk a d = record d { my_gd = a.disk; calls = alloc_disk a.disk ∷ d.calls }

abbrev pub publish : Driver → Driver
publish d = record d {
  calls = add_disk d.my_gd ∷ set_capacity d.my_gd (d.disk_size / sector_size) ∷ d.calls;
}

abbrev pub also : Call → Driver → Driver
also c d = record d { calls = c ∷ d.calls }

-- `diskmb` is the parameter of the module.
unfoldable pub my_init_original : Answers → ℕ → Driver → ℤ × Driver
my_init_original a diskmb d =
    let d1 = vmalloc_disk a diskmb d in
    let d2 = init_queue a d1 in
    let d3 = register a d2 in
    let d4 = alloc_gendisk a d3 in
    elim a.memory [
      | none ↦ (enomem, d1)
      | some _ ↦ elim a.queue [
        | none ↦ (enomem, also (vfree d2.ramdisk) d2)
        | some _ ↦
            if is_negative a.major then (a.major, also (vfree d3.ramdisk) d3) else elim a.disk [
              | none ↦ (enomem, also (vfree d4.ramdisk) (also (unregister_blkdev a.major) d4))
              | some _ ↦ (pos 0, publish d4)
            ]
      ]
    ]

unfoldable pub my_exit_original : Driver → Driver
my_exit_original d = record d {
  calls =
      vfree d.ramdisk
      ∷ blk_cleanup_queue d.my_request_queue
      ∷ unregister_blkdev d.mybdrv_ma_no
      ∷ put_disk d.my_gd
      ∷ del_gendisk d.my_gd
      ∷ d.calls;
}
