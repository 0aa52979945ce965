-- ===== src/Ramdisk/Request/Queue.antt =====
-- exp4/exp_4_2_ramdisk_driver.c and exp4/exp_4_2_original.c: the whole loop of `my_request`, against the
-- list of the segments that the block layer hands out.
use grade15_1linux.Common.{
  ℕ, zero, suc, ◌+◌, ◌*◌, ◌^◌, ◌≤◌, ◌<◌, ◌≡◌, ◌∙◌, refl, sym, ap, subst, Bool, Option, none, some,
  arith, List, [], ◌∷◌, Bytes, length, take, slice, splice, ltb, if◌then◌else◌, length-splice,
  length-take, Bool-cases, inl, inr, ltb→lt, ltb→le,
}
use grade15_1linux.Ramdisk.{BlkQueue}
use grade15_1linux.Ramdisk.Request.{done, transfer, next, serve, my_request, my_request_original}
use grade15_1linux.Ramdisk.Request.Segment.{transfer_inside, transfer_beyond}

-- A segment as the handler sees it.
pub record Segment : Type 0 where
  pub pos : ℕ
  pub nr : ℕ
  pub is_write : Bool
  pub buffer : Bytes

abbrev pub segment : {Q R : Type 0} → BlkQueue Q R → R → Q → Segment
segment k rq q = record {
  pos = k.blk_rq_pos rq q;
  nr = k.blk_rq_cur_sectors rq q;
  is_write = k.rq_data_dir rq q;
  buffer = k.bio_data rq q;
}

-- What the handler relies on: the requests of the queue are a finite list of segments, which the
-- calls at the end of the loop's body take one by one, and what the handler writes into the buffer
-- of one segment changes none of the later ones.
pub record QueueLaws {Q R : Type 0} (k : BlkQueue Q R) : Type 0 where
  pub script : Option R → Q → List Segment
  pub script_none : (q : Q) → script none q ≡ []
  pub script_some :
      (rq : R) (q : Q)
      → script (some rq) q ≡ segment k rq q ∷ script (next k rq q).0 (next k rq q).1
  pub script_fill :
      (rq : R) (b : Bytes) (q : Q)
      → script (next k rq (k.fill rq b q)).0 (next k rq (k.fill rq b q)).1
        ≡ script (next k rq q).0 (next k rq q).1

-- The disk that a segment is meant to leave: a write inside the disk replaces its sectors.
unfoldable pub apply_segment : Segment → Bytes → Bytes
apply_segment s disk =
    if ltb (length disk) ((s.pos + s.nr) * 512)
    then disk
    else if s.is_write
    then splice (s.pos * 512) (take (s.nr * 512) s.buffer) disk
    else disk

unfoldable pub play : List Segment → Bytes → Bytes
unfolding apply_segment
play [] disk = disk
play (s ∷ script) disk = play script (apply_segment s disk)

-- A position below 4 GB, less than 2 GB of sectors, and a buffer of their size.
abbrev pub IsSane : Segment → Type 0
IsSane s = (s.pos < 2 ^ 23) × (s.nr < 2 ^ 22) × (s.nr * 512 ≤ length s.buffer)

abbrev pub AllSane : List Segment → Type 0
AllSane [] = Unit {0}
AllSane (s ∷ script) = IsSane s × AllSane script

length-apply_segment :
    (s : Segment) (disk : Bytes) → IsSane s → length (apply_segment s disk) ≡ length disk
unfolding apply_segment
length-apply_segment s disk sane = ground (
  arith,
  length-splice (s.pos * 512) (take (s.nr * 512) s.buffer) disk,
  length-take (s.nr * 512) s.buffer,
)

module _ {Q R : Type 0} (k : BlkQueue Q R) (laws : QueueLaws k) where
  open laws use {script}

  abbrev rest : R → Q → List Segment
  rest rq q = script (next k rq q).0 (next k rq q).1

  record Step (rq : R) (disk : Bytes) (q : Q) : Type 0 where
    after : Q
    result : transfer k rq disk q ≡ done (apply_segment (segment k rq q) disk) after
    kept : rest rq after ≡ rest rq q

  step :
      (rq : R) (disk : Bytes) (q : Q)
      → length disk < 2 ^ 31
      → IsSane (segment k rq q)
      → Step rq disk q
  unfolding apply_segment
  step rq disk q small sane =
      let s = segment k rq q in
      elim (Bool-cases (ltb (length disk) ((s.pos + s.nr) * 512))) [
        | inl out ↦ record {
          after = q;
          result = transfer_beyond k rq disk q sane.0 sane.1 (ltb→lt _ _ out) ∙ rw out;
          kept = refl;
        }
        | inr within ↦
            let done_inside = transfer_inside k rq disk q small (ltb→le _ _ within) sane.2 in
            elim (Bool-cases s.is_write) [
              | inl write ↦ record {
                after = q;
                result = done_inside ∙ rw (write, within);
                kept = refl;
              }
              | inr read ↦ record {
                after = k.fill rq (splice 0 (slice (s.pos * 512) (s.nr * 512) disk) s.buffer) q;
                result = done_inside ∙ rw (read, within);
                kept = laws.script_fill rq _ q;
              }
            ]
      ]

  serve-step :
      (fuel : ℕ) (rq : R) (disk disk' : Bytes) (q q' : Q)
      → transfer k rq disk q ≡ done disk' q'
      → serve k (suc fuel) (some rq) disk q ≡ serve k fuel (next k rq q').0 disk' (next k rq q').1
  unfolding serve
  serve-step fuel rq disk disk' q q' e = rw (e, serve)

  serve-play :
      (fuel : ℕ) (r : Option R) (disk : Bytes) (q : Q) (todo : List Segment)
      → todo ≡ script r q
      → length todo ≤ fuel
      → length disk < 2 ^ 31
      → AllSane todo
      → (q' : Q) × (serve k fuel r disk q ≡ done (play todo disk) q')
  unfolding serve play
  serve-play fuel none disk q todo e enough small sane = (q, rw (e ∙ laws.script_none q))
  serve-play fuel (some rq) disk q [] e enough small sane = absurd (cc (e ∙ laws.script_some rq q))
  serve-play zero (some rq) disk q (s ∷ todo) e enough small sane = absurd (omega arith)
  serve-play (suc fuel) (some rq) disk q (s ∷ todo) e enough small sane =
      let both = e ∙ laws.script_some rq q in
      let head : s ≡ segment k rq q = cc both in
      let tail : todo ≡ rest rq q = cc both in
      let sane' : IsSane (segment k rq q) = subst IsSane head sane.0 in
      let st = step rq disk q small sane' in
      let disk' = apply_segment (segment k rq q) disk in
      let small' : length disk' < 2 ^ 31 =
        omega (arith, length-apply_segment (segment k rq q) disk sane') in
      let (q', ends) =
        serve-play fuel (next k rq st.after).0 disk' (next k rq st.after).1 todo
          (tail ∙ sym st.kept) (omega arith) small' sane.1 in
      (
        q',
        serve-step fuel rq disk disk' q st.after st.result
            ∙ ends
            ∙ ap (λ t. done (play todo (apply_segment t disk)) q') (sym head),
      )

  -- On a disk of less than 2 GB, with enough fuel for each segment of the queue, `my_request` ends
  -- without a fault, and the disk is then as the writes inside it, in the order of the queue, leave
  -- it: nothing else is written, and a segment behind the end is skipped. The segments are those
  -- behind the first request that the handler fetches; each lies below 4 GB, has less than 2 GB and a
  -- buffer of its size.
  pub my_request-play :
      (fuel : ℕ) (disk : Bytes) (q : Q) (first : Option R) (q1 : Q)
      → k.blk_get_request q ≡ (first, q1)
      → length (script first q1) ≤ fuel
      → length disk < 2 ^ 31
      → AllSane (script first q1)
      → (q' : Q) × (my_request k fuel disk q ≡ done (play (script first q1) disk) q')
  unfolding my_request
  my_request-play fuel disk q first q1 e enough small sane =
      let (q', ends) = serve-play fuel first disk q1 (script first q1) refl enough small sane in
      (q', ap (λ t. serve k fuel t.0 disk t.1) e ∙ ends)

  -- The same of the driver's other version, whose first request is fetched like the later ones.
  pub my_request_original-play :
      (fuel : ℕ) (disk : Bytes) (q : Q) (first : Option R) (q1 : Q)
      → k.blk_fetch_request q ≡ (first, q1)
      → length (script first q1) ≤ fuel
      → length disk < 2 ^ 31
      → AllSane (script first q1)
      → (q' : Q) × (my_request_original k fuel disk q ≡ done (play (script first q1) disk) q')
  unfolding my_request_original
  my_request_original-play fuel disk q first q1 e enough small sane =
      let (q', ends) = serve-play fuel first disk q1 (script first q1) refl enough small sane in
      (q', ap (λ t. serve k fuel t.0 disk t.1) e ∙ ends)
