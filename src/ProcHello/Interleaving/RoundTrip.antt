-- ===== src/ProcHello/Interleaving/RoundTrip.antt =====
-- exp3/exp3.1.c: what the single steps of an undisturbed write leave for the reads after it.
use grade15_1linux.Common.{
  ℕ, ◌≤◌, ◌≡◌, ◌∙◌, refl, ap, ap₂, sym, arith, true, false, [], Bytes, strlen, text, length, pos,
}
use grade15_1linux.UserCopy.Plain.{plain, plain_copy-CopyLaws, plain_copy_whole}
use grade15_1linux.ProcHello.{Buffer, proc_write}
use grade15_1linux.ProcHello.Message.{IsTerminated, proc_write-IsTerminated}
use grade15_1linux.ProcHello.Session.{write_stored, length-text}
use grade15_1linux.ProcHello.Interleaving.{checking, testing, wrote, read}
use grade15_1linux.ProcHello.Interleaving.Alone.{alone, alone-proc_write}
use grade15_1linux.ProcHello.Interleaving.Reading.{alone_first, alone_end}

-- Step by step and with no other process in between, on a terminated message and where the next read is
-- the first one of a reader: a write of at most 255 bytes returns their number; the read after it
-- delivers the bytes up to their first NUL, with their number; and the read after that finds the end of
-- the file, and leaves the variables as they were behind the write. Each has ended after 1026 steps.
pub text_returns :
    (fuel : ℕ) (bytes : Bytes) (s : Buffer)
    → IsTerminated s
    → s.finished ≡ false
    → length bytes ≤ 255
    → 1026 ≤ fuel
    → (s' : Buffer) × (alone fuel (checking bytes (length bytes)) s
        ≡ (wrote (pos (length bytes)), s'))
      × (alone fuel testing s'
          ≡ (read (pos (length (text bytes))) (text bytes), record s' { finished = true }))
      × (alone fuel testing (record s' { finished = true }) ≡ (read (pos 0) [], s'))
text_returns fuel bytes s t first fits enough =
    let s' = (proc_write plain bytes (length bytes) s).1 in
    let (value, content, ending) =
      write_stored plain plain_copy-CopyLaws plain_copy-CopyLaws s t bytes plain_copy_whole fits in
    let t' = proc_write-IsTerminated plain bytes (length bytes) s plain_copy-CopyLaws t in
    let fresh : s'.finished ≡ false = ending ∙ first in
    let measured : strlen s'.proc_msg ≡ length (text bytes) =
      sym (length-text s'.proc_msg) ∙ ap length content in
    let whole =
      plain_copy_whole s.proc_msg bytes (length bytes) (omega (arith, t.sized)) (omega arith) in
    (
      s',
      alone-proc_write plain fuel (length bytes) bytes s plain_copy-CopyLaws t (omega arith) whole
            (omega arith)
          ∙ ap (λ code. (wrote code, s')) value,
      alone_first fuel s' t' fresh enough
          ∙ ap₂ (λ n out. (read (pos n) out, record s' { finished = true })) measured content,
      alone_end fuel (record s' { finished = true }) refl (omega arith)
          ∙ ap (λ b. (read (pos 0) [], record s' { finished = b })) (sym fresh),
    )
