-- ===== src/BlockDevice/Request.antt =====
-- exp4/exp_4_2.c: `requestHandler`, which answers a request of the queue.
use grade15_1linux.Common.{
  ℕ, ◌+◌, ◌*◌, ◌%◌, ◌^◌, ◌≤◌, ◌≡◌, ◌↔◌, ◌⊎◌, refl, ◌&&◌, not, arith, List, [], ◌∷◌, ◌++◌, Bytes,
  ltb, ◌==◌, if◌then◌else◌,
}
use grade15_1linux.BlockDevice.{disk_size, sector_size}

pub data BlkStatus : Type 0 where
  blk_sts_ok blk_sts_ioerr : BlkStatus

-- The directions of a request.
abbrev pub read : ℕ
read = 0

abbrev pub write : ℕ
write = 1

-- The fields of the request that the handler looks at.
pub record Request : Type 0 where
  pub rq_data_dir : ℕ
  pub blk_rq_pos : ℕ
  pub blk_rq_sectors : ℕ

-- The calls of the handler to the kernel, in order.
pub data Call : Type 0 where
  blk_mq_start_request spin_lock spin_unlock : Call
  blk_mq_end_request : BlkStatus → Call

-- The status after the test of the range; the products and their sum have 64 bits.
abbrev pub range_status : Request → BlkStatus
range_status r =
    let offset = r.blk_rq_pos * sector_size % 2 ^ 64 in
    let count = r.blk_rq_sectors * sector_size % 2 ^ 64 in
    if ltb disk_size ((offset + count) % 2 ^ 64) then blk_sts_ioerr else blk_sts_ok

-- What stands for the read and the write: the lock is taken and given back. The third branch of the
-- source cannot be reached.
abbrev pub serve : Request → BlkStatus × List Call
serve r =
    if r.rq_data_dir == read
    then (range_status r, spin_lock ∷ spin_unlock ∷ [])
    else if r.rq_data_dir == write
    then (range_status r, spin_lock ∷ spin_unlock ∷ [])
    else (blk_sts_ioerr, [])

-- The value, the calls, and the disk: the handler does not touch it.
pub request_handler : Request → Bytes → BlkStatus × List Call × Bytes
request_handler r disk =
    let (status, inner) =
      if not (r.rq_data_dir == read) && not (r.rq_data_dir == write)
      then (blk_sts_ioerr, [])
      else serve r in
    (status, blk_mq_start_request ∷ inner ++ (blk_mq_end_request status ∷ []), disk)

abbrev pub IsDirection : Request → Type 0
IsDirection r = (r.rq_data_dir ≡ read) ⊎ (r.rq_data_dir ≡ write)

-- A request is answered with OK exactly if it is a read or a write and, modulo 2^64, ends on the
-- disk. Every one is started, and ended with the status that is returned, the lock is given back
-- wherever it is taken, and, also for a write that is answered with OK, the disk stays as it is.
pub request_handler_lem :
    (r : Request) (disk : Bytes)
    → let (status, calls, disk') = request_handler r disk in
      ((status ≡ blk_sts_ok)
        ↔ (IsDirection r × ((r.blk_rq_pos + r.blk_rq_sectors) * 512 % 2 ^ 64 ≤ disk_size)))
      × (((calls ≡ blk_mq_start_request ∷ blk_mq_end_request status ∷ [])
          ⊎ (calls
              ≡ blk_mq_start_request ∷ spin_lock ∷ spin_unlock ∷ blk_mq_end_request status ∷ [])))
      × (disk' ≡ disk)
unfolding request_handler
request_handler_lem r disk =
    ((λ e. (ground arith, ground arith), λ e. ground arith), ground arith, refl)
