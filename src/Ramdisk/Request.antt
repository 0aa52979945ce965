-- ===== src/Ramdisk/Request.antt =====
-- exp4/exp_4_2_ramdisk_driver.c: `my_request`, which serves the requests of a queue one segment at a
-- time.
pub mod Segment
pub mod Queue
use grade15_1linux.Common.{
  ℕ, zero, suc, ◌+◌, ◌-◌, ◌*◌, ◌%◌, ◌^◌, Bool, true, false, ◌&&◌, Option, none, some, Bytes, length,
  take, slice, splice, ltb, leb, if◌then◌else◌,
}
use grade15_1linux.Ramdisk.{BlkQueue, sector_size}

-- The products of the handler are `unsigned`: 32 bits. So is `sector`, which is cut down from the
-- 64 bits of the kernel.
abbrev pub u32 : ℕ → ℕ
u32 n = n % 2 ^ 32

abbrev pub offset_of : ℕ → ℕ
offset_of pos = u32 (u32 pos * sector_size)

abbrev pub size_of : ℕ → ℕ
size_of nr_sectors = u32 (u32 nr_sectors * sector_size)

-- `(ptr + size) > (ramdisk + disk_size)`, with `size` as an int: from 2^31 on it is negative.
abbrev pub past_end : ℕ → ℕ → ℕ → Bool
past_end offset size disk_size =
    if ltb size (2 ^ 31)
    then ltb disk_size (offset + size)
    else ltb (disk_size + (2 ^ 32 - size)) offset

-- The `size_t` that `memcpy` is given for the int `size`.
abbrev pub memcpy_count : ℕ → ℕ
memcpy_count size = if ltb size (2 ^ 31) then size else 2 ^ 64 - (2 ^ 32 - size)

-- The disk's memory and the queue after some code, or an access outside the disk or the buffer.
pub data Served (Q : Type 0) : Type 0 where
  fault : Served Q
  out_of_fuel : Served Q
  done : Bytes → Q → Served Q

module _ {Q R : Type 0} (k : BlkQueue Q R) where
  -- The body of the loop up to the label `done`. The disk's memory has `disk_size` bytes.
  pub transfer : R → Bytes → Q → Served Q
  transfer rq disk q =
      let offset = offset_of (k.blk_rq_pos rq q) in
      let size = size_of (k.blk_rq_cur_sectors rq q) in
      let n = memcpy_count size in
      let buffer = k.bio_data rq q in
      if past_end offset size (length disk)
      then done disk q
      else if leb (offset + n) (length disk) && leb n (length buffer)
      then (if k.rq_data_dir rq q
          then done (splice offset (take n buffer) disk) q
          else done disk (k.fill rq (splice 0 (slice offset n disk) buffer) q))
      else fault

  -- The end of the body: the same request again if it has more segments, or the next one.
  unfoldable pub next : R → Q → Option R × Q
  next rq q =
      let (more, q') = k.blk_end_request_cur rq q in
      if more then (some rq, q') else k.blk_fetch_request q'

  pub serve : ℕ → Option R → Bytes → Q → Served Q
  serve fuel none disk q = done disk q
  serve zero (some rq) disk q = out_of_fuel
  serve (suc fuel) (some rq) disk q = elim (transfer rq disk q) [
    | fault ↦ fault
    | out_of_fuel ↦ out_of_fuel
    | done disk' q' ↦ let (r, q'') = next rq q' in serve fuel r disk' q''
  ]

  pub my_request : ℕ → Bytes → Q → Served Q
  my_request fuel disk q = let (rq, q') = k.blk_get_request q in serve fuel rq disk q'

  -- The version of exp4/exp_4_2_original.c takes its first request like the later ones.
  pub my_request_original : ℕ → Bytes → Q → Served Q
  my_request_original fuel disk q = let (rq, q') = k.blk_fetch_request q in serve fuel rq disk q'
