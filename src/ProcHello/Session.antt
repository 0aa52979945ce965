-- ===== src/ProcHello/Session.antt =====
-- exp3/exp3.1.c: sequences of reads and writes of /proc/hello/world, against a file that holds a
-- text and gives it at every second read.
use grade15_1linux.Common.{
  ℕ, ◌-◌, ◌≤◌, ◌<◌, ◌≡◌, refl, ap, ap₂, ◌∙◌, Bool, true, false, List, [], ◌∷◌, arith, ltb,
  if◌then◌else◌, Bytes, strlen, text, take, drop, length, length-take, take-append, take_all,
  strlen-le-length, ℤ, pos, einval, ltb→lt, ltb→le, lt→ltb, le→ltb, Bool-cases, inl, inr,
}
use grade15_1linux.UserCopy.{UserCopy, CopyLaws}
use grade15_1linux.ProcHello.{Buffer, proc_write, proc_read, proc_msg_len}
use grade15_1linux.ProcHello.Message.{
  IsTerminated, proc_write-IsTerminated, proc_read-IsTerminated, strlen-lt, text_written,
}

-- A call of a process: a write of some bytes, or a read with a count into a buffer.
pub data Op : Type 0 where
  write : Bytes → Op
  read : Bytes → ℕ → Op

-- What the process sees: the value of the call, and the bytes that a read delivered.
abbrev pub Reply : Type 0
Reply = ℤ × Bytes

unfoldable pub delivered : ℤ → Bytes → Bytes
delivered (pos n) out = take n out
delivered _ out = []

-- The handlers, called in turn.
unfoldable pub run : UserCopy → List Op → Buffer → List Reply
unfolding delivered
run u [] s = []
run u (write bytes ∷ ops) s =
    let (code, s') = proc_write u bytes (length bytes) s in (code, []) ∷ run u ops s'
run u (read buffer count ∷ ops) s =
    let r = proc_read u buffer count 0 s in (r.code, delivered r.code r.buffer) ∷ run u ops r.after

-- The file as its readers see it: a text, and whether the next read finds the end of it.
pub record File : Type 0 where
  pub content : Bytes
  pub at_end : Bool

unfoldable pub file_run : List Op → File → List Reply
file_run [] f = []
file_run (write bytes ∷ ops) f =
    if ltb (proc_msg_len - 1) (length bytes)
    then (einval, []) ∷ file_run ops f
    else (pos (length bytes), []) ∷ file_run ops (record f { content = text bytes })
file_run (read buffer count ∷ ops) f =
    if f.at_end
    then (pos 0, []) ∷ file_run ops (record f { at_end = false })
    else (pos (length f.content), f.content) ∷ file_run ops (record f { at_end = true })

abbrev pub view : Buffer → File
view s = record { content = text s.proc_msg; at_end = s.finished }

-- The buffers of the reads have room for any message.
abbrev pub Roomy : List Op → Type 0
Roomy [] = Unit {0}
Roomy (write bytes ∷ ops) = Roomy ops
Roomy (read buffer count ∷ ops) = (255 ≤ length buffer) × Roomy ops

-- No copy faults.
abbrev pub Whole : (Bytes → Bytes → ℕ → Bytes × ℕ) → Type 0
Whole copy = (dst src : Bytes) (n : ℕ) → n ≤ length dst → n ≤ length src → (copy dst src n).1 ≡ 0

pub length-text : (b : Bytes) → length (text b) ≡ strlen b
length-text b = omega (arith, length-take (strlen b) b, strlen-le-length b)

module _ (u : UserCopy) (from : CopyLaws u.copy_from_user) (to : CopyLaws u.copy_to_user) where
  module _ (s : Buffer) (t : IsTerminated s) (bytes : Bytes) where
    write_too_long : 255 < length bytes → proc_write u bytes (length bytes) s ≡ (einval, s)
    unfolding proc_write
    write_too_long big = rw (lt→ltb 255 (length bytes) big)

    pub write_stored :
        Whole u.copy_from_user
        → length bytes ≤ 255
        → let (code, s') = proc_write u bytes (length bytes) s in
          (code ≡ pos (length bytes)) × (text s'.proc_msg ≡ text bytes) × (s'.finished ≡ s.finished)
    unfolding proc_write
    write_stored whole fits =
        let le : length bytes ≤ length s.proc_msg = omega (arith, t.sized) in
        let ok = whole s.proc_msg bytes (length bytes) le (omega arith) in
        rw
          (
            le→ltb 255 (length bytes) fits,
            ok,
            from.copied s.proc_msg bytes (length bytes) le (omega arith) ok,
          )
          (
            refl,
            text_written s.proc_msg bytes (length bytes) t.sized fits (omega arith)
                ∙ ap text (take_all (length bytes) bytes (omega arith)),
            refl,
          )

  pub read_end :
      (s : Buffer) (buffer : Bytes) (count : ℕ)
      → s.finished ≡ true
      → let r = proc_read u buffer count 0 s in
        (r.code ≡ pos 0) × (r.after ≡ record s { finished = false })
  unfolding proc_read
  read_end s buffer count e = rw e (refl, refl)

  pub read_message :
      (s : Buffer) (buffer : Bytes) (count : ℕ)
      → Whole u.copy_to_user
      → IsTerminated s
      → 255 ≤ length buffer
      → s.finished ≡ false
      → let r = proc_read u buffer count 0 s in
        (r.code ≡ pos (strlen s.proc_msg))
        × (take (strlen s.proc_msg) r.buffer ≡ text s.proc_msg)
        × (r.after ≡ record s { finished = true })
  unfolding proc_read
  read_message s buffer count whole t room e =
      let n = strlen s.proc_msg in
      let le : n ≤ length buffer = omega (arith, strlen-lt s t) in
      let ok = whole buffer s.proc_msg n le (strlen-le-length s.proc_msg) in
      rw (e, ok, to.copied buffer s.proc_msg n le (strlen-le-length s.proc_msg) ok)
        (refl, take-append n (text s.proc_msg) (drop n buffer) (sym_length s), refl)
    where
      sym_length : (s : Buffer) → strlen s.proc_msg ≡ length (text s.proc_msg)
      sym_length s = omega (arith, length-text s.proc_msg)

  module _ (whole_from : Whole u.copy_from_user) (whole_to : Whole u.copy_to_user) where
    -- Where no copy faults, no sequence of writes and reads tells a terminated message from a file
    -- that holds the text written last, cut at its first NUL, refuses a write of more than 255
    -- bytes, and gives its whole text and the end of the file in turn.
    pub run_refines :
        (ops : List Op) (s : Buffer)
        → IsTerminated s
        → Roomy ops
        → run u ops s ≡ file_run ops (view s)
    unfolding run file_run
    run_refines [] s t roomy = refl
    run_refines (write bytes ∷ ops) s t roomy = elim (Bool-cases (ltb 255 (length bytes))) [
      | inl big ↦
          rw (write_too_long s t bytes (ltb→lt 255 (length bytes) big), big)
            (ap (λ rest. (einval, []) ∷ rest) (run_refines ops s t roomy))
      | inr fits ↦
          let (value, content, ending) =
            write_stored s t bytes whole_from (ltb→le 255 (length bytes) fits) in
          let s' = (proc_write u bytes (length bytes) s).1 in
          let t' = proc_write-IsTerminated u bytes (length bytes) s from t in
          let same : view s' ≡ record { content = text bytes; at_end = s.finished } =
            ground arith in
          rw fits (
            ap₂ (λ code rest. (code, []) ∷ rest) value
              (run_refines ops s' t' roomy ∙ ap (file_run ops) same))
    ]
    run_refines (read buffer count ∷ ops) s t roomy = elim (Bool-cases s.finished) [
      | inl e ↦
          let (value, after) = read_end s buffer count e in
          let t' = proc_read-IsTerminated u buffer count 0 s t in
          let r = proc_read u buffer count 0 s in
          let same : view r.after ≡ record { content = text s.proc_msg; at_end = false } =
            ground arith in
          simp e (ap₂ ◌∷◌ (rw value) (run_refines ops r.after t' roomy.1 ∙ ap (file_run ops) same))
      | inr e ↦
          let (value, out, after) = read_message s buffer count whole_to t roomy.0 e in
          let t' = proc_read-IsTerminated u buffer count 0 s t in
          let r = proc_read u buffer count 0 s in
          let same : view r.after ≡ record { content = text s.proc_msg; at_end = true } =
            ground arith in
          simp e (
            ap₂ ◌∷◌ (rw (value, out, length-text s.proc_msg))
              (run_refines ops r.after t' roomy.1 ∙ ap (file_run ops) same))
    ]
