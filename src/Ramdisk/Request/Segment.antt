-- ===== src/Ramdisk/Request/Segment.antt =====
-- exp4/exp_4_2_ramdisk_driver.c: one segment of a request, on the sectors that it names.
use grade15_1linux.Common.{
  ℕ, ◌+◌, ◌-◌, ◌*◌, ◌^◌, ◌≤◌, ◌<◌, ◌≡◌, ◌∙◌, true, false, ◌&&◌, arith, Bytes, length, take, slice,
  splice, leb, if◌then◌else◌, Bool-cases, inl, inr,
}
use grade15_1linux.Ramdisk.{BlkQueue}
use grade15_1linux.Ramdisk.Request.{
  offset_of, size_of, past_end, memcpy_count, fault, done, transfer,
}

-- Sectors `base` to `base + nr` of a disk of `d` bytes, and a buffer of `b` bytes for them.
record Inside (base nr d b : ℕ) : Type 0 where
  small : d < 2 ^ 31
  within : (base + nr) * 512 ≤ d
  room : nr * 512 ≤ b

-- What the tests and the products of the handler come to, for a position that is `j` times 2^23
-- sectors, or 4 GB, behind `base`.
module _ (base j nr d b : ℕ) (i : Inside base nr d b) where
  offset-wraps : offset_of (base + j * 2 ^ 23) ≡ base * 512
  offset-wraps = omega arith

  size-fits : size_of nr ≡ nr * 512
  size-fits = omega arith

  not_past_end : past_end (base * 512) (nr * 512) d ≡ false
  not_past_end = ground arith

  count-fits : memcpy_count (nr * 512) ≡ nr * 512
  count-fits = ground arith

  access_ok : (leb (base * 512 + nr * 512) d && leb (nr * 512) b) ≡ true
  access_ok = ground arith

module _ {Q R : Type 0} (k : BlkQueue Q R) (rq : R) (disk : Bytes) (q : Q) where
  abbrev first : ℕ
  first = k.blk_rq_pos rq q

  abbrev count : ℕ
  count = k.blk_rq_cur_sectors rq q

  abbrev buffer : Bytes
  buffer = k.bio_data rq q

  write_at :
      (base j : ℕ)
      → first ≡ base + j * 2 ^ 23
      → Inside base count (length disk) (length buffer)
      → k.rq_data_dir rq q ≡ true
      → transfer k rq disk q ≡ done (splice (base * 512) (take (count * 512) buffer) disk) q
  unfolding transfer
  write_at base j at i write =
      let d = length disk in
      let b = length buffer in
      rw (
        at,
        offset-wraps base j count d b i,
        size-fits base j count d b i,
        not_past_end base j count d b i,
        count-fits base j count d b i,
        access_ok base j count d b i,
        write,
      )

  read_at :
      (base j : ℕ)
      → first ≡ base + j * 2 ^ 23
      → Inside base count (length disk) (length buffer)
      → k.rq_data_dir rq q ≡ false
      → transfer k rq disk q
        ≡ done disk (k.fill rq (splice 0 (slice (base * 512) (count * 512) disk) buffer) q)
  unfolding transfer
  read_at base j at i read =
      let d = length disk in
      let b = length buffer in
      rw (
        at,
        offset-wraps base j count d b i,
        size-fits base j count d b i,
        not_past_end base j count d b i,
        count-fits base j count d b i,
        access_ok base j count d b i,
        read,
      )

  -- A segment inside a disk of less than 2 GB, with a buffer of its size: a write puts the buffer's
  -- bytes over exactly its sectors, and a read fills the buffer from exactly its sectors and leaves
  -- the disk as it is.
  pub transfer_inside :
      length disk < 2 ^ 31
      → (first + count) * 512 ≤ length disk
      → count * 512 ≤ length buffer
      → transfer k rq disk q ≡ (
          if k.rq_data_dir rq q
          then done (splice (first * 512) (take (count * 512) buffer) disk) q
          else done disk (k.fill rq (splice 0 (slice (first * 512) (count * 512) disk) buffer) q))
  transfer_inside small within room = elim (Bool-cases (k.rq_data_dir rq q)) [
    | inl write ↦ write_at first 0 (omega arith) i write ∙ rw write
    | inr read ↦ read_at first 0 (omega arith) i read ∙ rw read
  ]
    where
      i : Inside first count (length disk) (length buffer)
      i = record { small = small; within = within; room = room }

  -- A segment of less than 2 GB that begins below 4 GB and ends behind the end of the disk changes
  -- nothing.
  pub transfer_beyond :
      first < 2 ^ 23
      → count < 2 ^ 22
      → length disk < (first + count) * 512
      → transfer k rq disk q ≡ done disk q
  unfolding transfer
  transfer_beyond low short beyond =
      let off : offset_of first ≡ first * 512 = omega arith in
      let size : size_of count ≡ count * 512 = omega arith in
      let over : past_end (first * 512) (count * 512) (length disk) ≡ true = ground arith in
      rw (off, size, over)

  -- The product `sector * sector_size` has 32 bits: a write at a sector from 2^23 on is not refused
  -- where its position modulo 4 GB lies on the disk, but overwrites the sectors there.
  pub transfer_wraps :
      (base j : ℕ)
      → first ≡ base + j * 2 ^ 23
      → length disk < 2 ^ 31
      → (base + count) * 512 ≤ length disk
      → count * 512 ≤ length buffer
      → k.rq_data_dir rq q ≡ true
      → transfer k rq disk q ≡ done (splice (base * 512) (take (count * 512) buffer) disk) q
  transfer_wraps base j at small within room write =
      write_at base j at (record { small = small; within = within; room = room }) write

  -- `size` is an int: a segment of 2 GB up to 4 GB that begins on the disk passes the test as one of a
  -- negative size, and `memcpy` runs out of the disk.
  pub transfer_overruns :
      first * 512 ≤ length disk
      → 2 ^ 22 ≤ count
      → count < 2 ^ 23
      → length disk < 2 ^ 31
      → transfer k rq disk q ≡ fault
  unfolding transfer
  transfer_overruns on_disk long short small =
      let off : offset_of first ≡ first * 512 = omega arith in
      let size : size_of count ≡ count * 512 = omega arith in
      let under : past_end (first * 512) (count * 512) (length disk) ≡ false = ground arith in
      let n : memcpy_count (count * 512) ≡ 2 ^ 64 - (2 ^ 32 - count * 512) = ground arith in
      let bad : (leb (first * 512 + (2 ^ 64 - (2 ^ 32 - count * 512))) (length disk)
            && leb (2 ^ 64 - (2 ^ 32 - count * 512)) (length buffer))
          ≡ false =
        ground arith in
      rw (off, size, under, n, bad)
