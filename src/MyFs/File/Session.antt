-- ===== src/MyFs/File/Session.antt =====
-- course_design/myfs_kernel.c: the reads and writes of all files of the file system, against one queue
-- of 64 bytes.
use grade15_1linux.Common.{
  ℕ, ◌≤◌, ◌≡◌, refl, ap, ap₂, sym, subst, ◌∙◌, arith, List, [], ◌∷◌, ◌++◌, Bytes, length, take,
  drop, min, ℤ, pos, take-append, length-take,
}
use grade15_1linux.MyFs.Fifo.{Kfifo, FifoLaws}
use grade15_1linux.MyFs.Fifo.Queue.{
  Op, read, write, Reply, queue_run, room, received, sent, queue_order,
}
use grade15_1linux.MyFs.File.{myfs_file_read, myfs_file_write}

delivered : ℤ → Bytes → Bytes
delivered (pos n) out = take n out
delivered _ out = []

-- The calls of some processes on files of the file system, in turn: the replies, and the buffer.
unfoldable pub run : {F : Type 0} → Kfifo F → List Op → F → List Reply × F
unfolding delivered
run k [] f = ([], f)
run k (read file user n ∷ ops) f =
    let (code, out, f') = myfs_file_read k user n f in
    let rest = run k ops f' in ((code, delivered code out) ∷ rest.0, rest.1)
run k (write file bytes ∷ ops) f =
    let (code, f') = myfs_file_write k bytes (length bytes) f in
    let rest = run k ops f' in ((code, []) ∷ rest.0, rest.1)

-- Every read has a buffer of its count.
abbrev pub Roomy : List Op → Type 0
Roomy [] = Unit {0}
Roomy (read file user n ∷ ops) = (n ≤ length user) × Roomy ops
Roomy (write file bytes ∷ ops) = Roomy ops

-- No macro fails.
pub record Reliable {F : Type 0} (k : Kfifo F) : Type 0 where
  pub reads : (f : F) (user : Bytes) (n : ℕ) → n ≤ length user → (k.to_user f user n).ret ≡ pos 0
  pub writes : (f : F) (user : Bytes) (n : ℕ) → n ≤ length user → (k.from_user f user n).ret ≡ pos 0

module _ {F : Type 0} (k : Kfifo F) (laws : FifoLaws k) where
  open laws use {held}

  pub read_reply :
      (f : F) (user : Bytes) (n : ℕ)
      → n ≤ length user
      → (k.to_user f user n).ret ≡ pos 0
      → let (code, out, f') = myfs_file_read k user n f in
        (code ≡ pos (min n (length (held f))))
        × (take (min n (length (held f))) out ≡ take n (held f))
        × (held f' ≡ drop n (held f))
  unfolding myfs_file_read
  read_reply f user n big ok = rw ok (
    ap pos (laws.read_count f user n ok),
    rw (laws.read_user f user n ok big) (
        take-append (min n (length (held f))) (take n (held f))
          (drop (min n (length (held f))) user) (sym (length-take n (held f)))),
    laws.read_held f user n ok,
  )

  pub write_reply :
      (f : F) (bytes : Bytes)
      → (k.from_user f bytes (length bytes)).ret ≡ pos 0
      → let (code, f') = myfs_file_write k bytes (length bytes) f in
        (code ≡ pos (min (length bytes) (room (held f))))
        × (held f' ≡ held f ++ take (min (length bytes) (room (held f))) bytes)
  unfolding myfs_file_write
  write_reply f bytes ok = rw ok (
    ap pos (laws.write_count f bytes (length bytes) ok),
    laws.write_held f bytes (length bytes) ok (omega arith),
  )

  -- Where the kernel's macros do not fail, every sequence of reads and writes, through any of the
  -- files, has the replies of one queue of 64 bytes that they all share, and leaves its bytes in
  -- the buffer.
  pub run-queue :
      (ops : List Op) (f : F)
      → Reliable k
      → Roomy ops
      → let (replies, f') = run k ops f in (replies, held f') ≡ queue_run ops (held f)
  unfolding run queue_run
  run-queue [] f reliable roomy = refl
  run-queue (read file user n ∷ ops) f reliable roomy =
      let (code, bytes, rest) = read_reply f user n roomy.0 (reliable.reads f user n roomy.0) in
      let (c, out, f') = myfs_file_read k user n f in
      let here : (c, delivered c out) ≡ (pos (min n (length (held f))), take n (held f)) =
        ap (λ x. (x, delivered x out)) code ∙ ap (λ b. (pos (min n (length (held f))), b)) bytes in
      let later = run-queue ops f' reliable roomy.1 ∙ ap (queue_run ops) rest in
      ap₂ (λ r (t : List Reply × Bytes). (r ∷ t.0, t.1)) here later
  run-queue (write file bytes ∷ ops) f reliable roomy =
      let (code, rest) =
        write_reply f bytes (reliable.writes f bytes (length bytes) (omega arith)) in
      let f' = (myfs_file_write k bytes (length bytes) f).1 in
      let later = run-queue ops f' reliable roomy ∙ ap (queue_run ops) rest in
      ap₂ (λ c (t : List Reply × Bytes). ((c, []) ∷ t.0, t.1)) code later

  -- So nothing is lost, made up or reordered between the files: what the buffer held and then what
  -- the writes reported as written, in the order of the calls, is what the reads received and then
  -- what the buffer holds at the end.
  pub run_order :
      (ops : List Op) (f : F)
      → Reliable k
      → Roomy ops
      → let (replies, f') = run k ops f in received replies ++ held f' ≡ held f ++ sent ops replies
  run_order ops f reliable roomy =
      subst (λ (t : List Reply × Bytes). received t.0 ++ t.1 ≡ held f ++ sent ops t.0)
        (sym (run-queue ops f reliable roomy)) (queue_order ops (held f))
