-- ===== src/ProcHello/Interleaving/Reading.antt =====
-- exp3/exp3.1.c: a `proc_read` that no other process disturbs does in its single steps what the handler of
-- ProcHello does at once.
use grade15_1linux.Common.{
  ℕ, zero, suc, ◌+◌, ◌-◌, ◌*◌, ◌≤◌, ◌<◌, ◌≡◌, ◌∙◌, refl, ap, sym, arith, Bool, true, false,
  Bool-cases, ◌==◌, if◌then◌else◌, some, [], ◌∷◌, ◌++◌, ltb, lt→ltb, le→ltb, Bytes, strlen, text,
  get_elem?, take, length, length-take, ℤ, pos, inl, inr,
}
use grade15_1linux.UserCopy.{UserCopy, CopyLaws}
use grade15_1linux.ProcHello.{Buffer, proc_read}
use grade15_1linux.ProcHello.Message.{IsTerminated, strlen-lt}
use grade15_1linux.ProcHello.Session.{delivered, Whole, read_end, read_message}
use grade15_1linux.ProcHello.Interleaving.{
  Strlen, for_copy, for_position, for_value, testing, clearing, marking, measuring, delivering,
  read, measured, advance,
}
use grade15_1linux.ProcHello.Interleaving.Alone.{alone, alone_step}

-- `k` steps and then the fuel that is left.
plus : ℕ → ℕ → ℕ
plus zero fuel = fuel
plus (suc k) fuel = suc (plus k fuel)

plus_lem : (k fuel : ℕ) → plus k fuel ≡ k + fuel
unfolding plus
plus_lem zero fuel = omega arith
plus_lem (suc k) fuel = omega (arith, plus_lem k fuel)

-- The bytes of a C string, and the NUL behind them.
byte_at :
    (b : Bytes) (i : ℕ)
    → i < strlen b
    → (c : ℕ) × (get_elem? b i ≡ some c)
      × ((c == 0) ≡ false)
      × (take (suc i) b ≡ take i b ++ c ∷ [])
unfolding strlen
byte_at [] i lt = absurd (omega arith)
byte_at (c ∷ cs) zero lt = elim (Bool-cases (c == 0)) [
  | inl nul ↦ let none_left = rw nul at lt in absurd (omega (arith, none_left))
  | inr other ↦ (c, refl, other, refl)
]
byte_at (c ∷ cs) (suc i) lt = elim (Bool-cases (c == 0)) [
  | inl nul ↦ let none_left = rw nul at lt in absurd (omega (arith, none_left))
  | inr other ↦
      let lt' = rw other at lt in
      let (d, here, not_nul, more) = byte_at cs i (omega (arith, lt')) in
      (d, here, not_nul, ap (λ xs. c ∷ xs) more)
]

nul_at :
    (b : Bytes)
    → strlen b < length b
    → (c : ℕ) × (get_elem? b (strlen b) ≡ some c) × ((c == 0) ≡ true)
unfolding strlen
nul_at [] lt = absurd (omega arith)
nul_at (c ∷ cs) lt = elim (Bool-cases (c == 0)) [
  | inl nul ↦ rw nul (c, refl, nul)
  | inr other ↦
      let lt' = rw other at lt in
      let (d, here, nul) = nul_at cs (omega (arith, lt')) in rw other (d, here, nul)
]

module _ (s : Buffer) (t : IsTerminated s) where
  n : ℕ
  n = strlen s.proc_msg

  short : n ≤ 255
  unfolding n
  short = strlen-lt s t

  stop_step :
      (k : Strlen) (i c : ℕ)
      → get_elem? s.proc_msg i ≡ some c
      → (c == 0) ≡ true
      → advance s (measuring k i) ≡ some (measured k i, s)
  unfolding advance
  stop_step k i c here nul = rw (here, advance) (rw nul refl)

  go_step :
      (k : Strlen) (i c : ℕ)
      → get_elem? s.proc_msg i ≡ some c
      → (c == 0) ≡ false
      → advance s (measuring k i) ≡ some (measuring k (i + 1), s)
  unfolding advance
  go_step k i c here other = rw (here, advance) (rw other refl)

  taken : (i : ℕ) → i ≤ n → length (take i s.proc_msg) ≡ i
  unfolding n
  taken i le = omega (arith, length-take i s.proc_msg, le, short, t.sized)

  done_step :
      (i : ℕ)
      → i ≡ n
      → advance s (delivering n (take i s.proc_msg))
        ≡ some (measuring (for_position (take i s.proc_msg)) 0, s)
  unfolding advance
  done_step i same =
      let all : ltb (length (take i s.proc_msg)) n ≡ false =
        le→ltb (length (take i s.proc_msg)) n (omega (arith, taken i (omega arith))) in
      rw (all, advance) refl

  byte_step :
      (i c : ℕ)
      → get_elem? s.proc_msg i ≡ some c
      → i < n
      → advance s (delivering n (take i s.proc_msg))
        ≡ some (delivering n (take i s.proc_msg ++ c ∷ []), s)
  unfolding advance
  byte_step i c here lt =
      let at_i = taken i (omega (arith, lt)) in
      let more : ltb (length (take i s.proc_msg)) n ≡ true =
        lt→ltb (length (take i s.proc_msg)) n (omega (arith, at_i, lt)) in
      let here' : get_elem? s.proc_msg (length (take i s.proc_msg)) ≡ some c =
        ap (λ m. get_elem? s.proc_msg m) at_i ∙ here in
      rw (more, here', advance) refl

  -- One `strlen`, from the byte `i` on.
  alone-measuring :
      (k : Strlen) (j i extra : ℕ)
      → j + i ≡ n
      → alone (plus j (suc extra)) (measuring k i) s ≡ alone extra (measured k n) s
  unfolding plus n
  alone-measuring k zero i extra at_end =
      let same : i ≡ n = omega arith in
      let (c, here, nul) = nul_at s.proc_msg (omega (arith, short, t.sized)) in
      let here' : get_elem? s.proc_msg i ≡ some c = ap (λ m. get_elem? s.proc_msg m) same ∙ here in
      alone_step extra (measuring k i) (measured k i) s s (stop_step k i c here' nul)
      ∙ ap (λ m. alone extra (measured k m) s) same
  alone-measuring k (suc j) i extra more =
      let (c, here, other, longer) = byte_at s.proc_msg i (omega (arith, more)) in
      let next : i + 1 ≡ suc i = omega arith in
      alone_step (plus j (suc extra)) (measuring k i) (measuring k (i + 1)) s s
        (go_step k i c here other)
      ∙ ap (λ m. alone (plus j (suc extra)) (measuring k m) s) next
      ∙ alone-measuring k j (suc i) extra (omega (arith, more))

  -- The copy to the user, from the byte `i` on.
  alone-delivering :
      (j i extra : ℕ)
      → j + i ≡ n
      → alone (plus j (suc extra)) (delivering n (take i s.proc_msg)) s
        ≡ alone extra (measuring (for_position (text s.proc_msg)) 0) s
  unfolding plus n
  alone-delivering zero i extra at_end =
      let same : i ≡ n = omega arith in
      alone_step extra (delivering n (take i s.proc_msg))
        (measuring (for_position (take i s.proc_msg)) 0) s s (done_step i same)
      ∙ ap (λ m. alone extra (measuring (for_position (take m s.proc_msg)) 0) s) same
  alone-delivering (suc j) i extra more =
      let (c, here, other, longer) = byte_at s.proc_msg i (omega (arith, more)) in
      alone_step (plus j (suc extra)) (delivering n (take i s.proc_msg))
        (delivering n (take i s.proc_msg ++ c ∷ [])) s s (byte_step i c here (omega (arith, more)))
      ∙ ap (λ out. alone (plus j (suc extra)) (delivering n out) s) (sym longer)
      ∙ alone-delivering j (suc i) extra (omega (arith, more))

alone-read :
    (fuel : ℕ) (code : ℤ) (out : Bytes) (s : Buffer)
    → alone fuel (read code out) s ≡ (read code out, s)
unfolding alone advance
alone-read zero code out s = refl
alone-read (suc fuel) code out s = refl

testing_step :
    (s : Buffer) (b : Bool)
    → s.finished ≡ b
    → advance s testing ≡ some (if b then clearing else marking, s)
unfolding advance
testing_step s b e = ap (λ f. some (if f then clearing else marking, s)) e

-- The end of the file.
pub alone_end :
    (fuel : ℕ) (s : Buffer)
    → s.finished ≡ true
    → 2 ≤ fuel
    → alone fuel testing s ≡ (read (pos 0) [], record s { finished = false })
unfolding advance
alone_end zero s ended enough = absurd (omega arith)
alone_end (suc zero) s ended enough = absurd (omega arith)
alone_end (suc (suc fuel)) s ended enough =
    alone_step (suc fuel) testing clearing s s (testing_step s true ended)
    ∙ alone_step fuel clearing (read (pos 0) []) s (record s { finished = false }) refl
    ∙ alone-read fuel (pos 0) [] (record s { finished = false })

-- The fuel of a whole read of `n` bytes, and what is left.
read_fuel : ℕ → ℕ → ℕ
read_fuel n extra = suc (suc (plus n (suc (plus n (suc (plus n (suc (plus n (suc extra)))))))))

read_fuel_lem : (n extra : ℕ) → read_fuel n extra ≡ 4 * n + 6 + extra
unfolding read_fuel
read_fuel_lem n extra =
    let last = plus n (suc extra) in
    let third = plus n (suc last) in
    let second = plus n (suc third) in
    omega (
      arith,
      plus_lem n (suc extra),
      plus_lem n (suc last),
      plus_lem n (suc third),
      plus_lem n (suc second),
    )

alone_message :
    (extra : ℕ) (s : Buffer)
    → IsTerminated s
    → s.finished ≡ false
    → alone (read_fuel (strlen s.proc_msg) extra) testing s
      ≡ (read (pos (strlen s.proc_msg)) (text s.proc_msg), record s { finished = true })
unfolding read_fuel advance n
alone_message extra s t first =
    let s' = record s { finished = true } in
    let t' : IsTerminated s' = record { sized = t.sized; last = t.last } in
    let m = strlen s.proc_msg in
    let out = text s.proc_msg in
    let last = plus m (suc extra) in
    let third = plus m (suc last) in
    let second = plus m (suc third) in
    alone_step (suc (plus m (suc second))) testing marking s s (testing_step s false first)
    ∙ alone_step (plus m (suc second)) marking (measuring for_copy 0) s s' refl
    ∙ alone-measuring s' t' for_copy m 0 second (omega arith)
    ∙ alone-delivering s' t' m 0 third (omega arith)
    ∙ alone-measuring s' t' (for_position out) m 0 last (omega arith)
    ∙ alone-measuring s' t' (for_value out) m 0 extra (omega arith)
    ∙ alone-read extra (pos m) out s'

-- The first read of a terminated message that no other process disturbs.
pub alone_first :
    (fuel : ℕ) (s : Buffer)
    → IsTerminated s
    → s.finished ≡ false
    → 1026 ≤ fuel
    → alone fuel testing s
      ≡ (read (pos (strlen s.proc_msg)) (text s.proc_msg), record s { finished = true })
alone_first fuel s t first enough =
    let extra = fuel - (4 * strlen s.proc_msg + 6) in
    let split : fuel ≡ read_fuel (strlen s.proc_msg) extra =
      omega (arith, read_fuel_lem (strlen s.proc_msg) extra, strlen-lt s t) in
    ap (λ f. alone f testing s) split ∙ alone_message extra s t first

-- A `proc_read` of a terminated message that no other process disturbs, into a buffer with room for any
-- message and with copies that do not fault, has ended after 1026 steps, and leaves the value, the bytes
-- delivered and the variables that the handler, taken as one step, leaves.
pub alone-proc_read :
    (u : UserCopy) (fuel count : ℕ) (buffer : Bytes) (s : Buffer)
    → CopyLaws u.copy_from_user
    → CopyLaws u.copy_to_user
    → Whole u.copy_to_user
    → IsTerminated s
    → 255 ≤ length buffer
    → 1026 ≤ fuel
    → let r = proc_read u buffer count 0 s in
      alone fuel testing s ≡ (read r.code (delivered r.code r.buffer), r.after)
unfolding delivered
alone-proc_read u fuel count buffer s from to whole t room enough = elim (Bool-cases s.finished) [
  | inl ended ↦
      let (value, after) = read_end u from to s buffer count ended in
      alone_end fuel s ended (omega arith) ∙ rw (value, after) refl
  | inr first ↦
      let (value, out, after) = read_message u from to s buffer count whole t room first in
      alone_first fuel s t first enough ∙ rw (value, out, after) refl
]
