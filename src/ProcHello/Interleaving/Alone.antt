-- ===== src/ProcHello/Interleaving/Alone.antt =====
-- exp3/exp3.1.c: a `proc_write` that no other process disturbs does in its single steps what the handler of
-- ProcHello does at once.
use grade15_1linux.Common.{
  ℕ, zero, suc, ◌+◌, ◌-◌, ◌≤◌, ◌<◌, ◌≡◌, ◌∙◌, refl, ap, arith, true, Bool-cases, none, some, [],
  ◌∷◌, ◌++◌, ltb, ltb→lt, ltb→le, lt→ltb, le→ltb, Bytes, get_elem?, set, take, drop, length,
  length-append, length-take, length-drop, ℤ, pos, einval, inl, inr,
}
use grade15_1linux.UserCopy.{UserCopy, CopyLaws}
use grade15_1linux.ProcHello.{Buffer, proc_write}
use grade15_1linux.ProcHello.Message.{IsTerminated}
use grade15_1linux.ProcHello.Interleaving.{Point, checking, copying, ending, wrote, advance}
use grade15_1linux.ProcHello.Interleaving.Safety.{get_elem?-inside}

-- The steps of one process, as long as it is in a handler.
unfoldable pub alone : ℕ → Point → Buffer → Point × Buffer
alone zero x s = (x, s)
alone (suc fuel) x s = elim (advance s x) [ none ↦ (x, s) | some (y, b) ↦ alone fuel y b ]

pub alone_step :
    (fuel : ℕ) (x y : Point) (s b : Buffer)
    → advance s x ≡ some (y, b)
    → alone (suc fuel) x s ≡ alone fuel y b
unfolding alone
alone_step fuel x y s b e = rw (e, alone) refl

alone-wrote : (fuel : ℕ) (code : ℤ) (s : Buffer) → alone fuel (wrote code) s ≡ (wrote code, s)
unfolding alone advance
alone-wrote zero code s = refl
alone-wrote (suc fuel) code s = refl

-- The next byte of a copy.
set-append :
    (i b : ℕ) (buffer msg : Bytes)
    → get_elem? buffer i ≡ some b
    → i < length msg
    → set (take i buffer ++ drop i msg) i b ≡ take (suc i) buffer ++ drop (suc i) msg
set-append zero b [] msg here lt = absurd (cc)
set-append zero b (c ∷ cs) [] here lt = absurd (omega arith)
set-append zero b (c ∷ cs) (m ∷ ms) here lt = let same : b ≡ c = cc in ap (λ x. x ∷ ms) same
set-append (suc i) b [] msg here lt = absurd (cc)
set-append (suc i) b (c ∷ cs) [] here lt = absurd (omega arith)
set-append (suc i) b (c ∷ cs) (m ∷ ms) here lt =
    ap (λ xs. c ∷ xs) (set-append i b cs ms here (omega arith))

-- Fuel for `k` more bytes, the NUL and more.
fuel_for : ℕ → ℕ → ℕ
fuel_for zero extra = suc (suc extra)
fuel_for (suc k) extra = suc (fuel_for k extra)

fuel_for_lem : (k extra : ℕ) → fuel_for k extra ≡ k + 2 + extra
unfolding fuel_for
fuel_for_lem zero extra = omega arith
fuel_for_lem (suc k) extra = omega (arith, fuel_for_lem k extra)

module _ (buffer : Bytes) (count : ℕ) (s : Buffer) (sized : length s.proc_msg ≡ 256)
    (fits : count ≤ 255) (long : count ≤ length buffer) where
  -- The variables with `i` bytes copied.
  part : ℕ → Buffer
  part i = record s { proc_msg = take i buffer ++ drop i s.proc_msg }

  length-part : (i : ℕ) → i ≤ count → length (part i).proc_msg ≡ 256
  unfolding part
  length-part i le = omega (
    arith,
    length-append (take i buffer) (drop i s.proc_msg),
    length-take i buffer,
    length-drop i s.proc_msg,
    sized,
  )

  copy_step :
      (i : ℕ)
      → i < count
      → advance (part i) (copying buffer count i)
        ≡ some (copying buffer count (i + 1), part (suc i))
  unfolding advance part
  copy_step i lt =
      let (b, here) = get_elem?-inside buffer i (omega arith) in
      let inside : ltb i (length (part i).proc_msg) ≡ true =
        lt→ltb i (length (part i).proc_msg) (omega (arith, length-part i (omega arith))) in
      rw (lt→ltb i count lt, here, inside, advance)
        (ap (λ m. some (copying buffer count (i + 1), record s { proc_msg = m }))
          (set-append i b buffer s.proc_msg here (omega (arith, sized))))

  last_step :
      (i : ℕ) → count ≤ i → advance (part i) (copying buffer count i) ≡ some (ending count, part i)
  unfolding advance
  last_step i le = rw (le→ltb i count le, advance) refl

  written : Buffer
  written = record s { proc_msg = set (take count buffer ++ drop count s.proc_msg) count 0 }

  end_step : advance (part count) (ending count) ≡ some (wrote (pos count), written)
  unfolding advance part written
  end_step =
      let inside : ltb count (length (part count).proc_msg) ≡ true =
        lt→ltb count (length (part count).proc_msg)
          (omega (arith, length-part count (omega arith))) in
      rw (inside, advance) refl

  alone-copying :
      (k i extra : ℕ)
      → k + i ≡ count
      → alone (fuel_for k extra) (copying buffer count i) (part i) ≡ (wrote (pos count), written)
  unfolding fuel_for
  alone-copying zero i extra at_end =
      let same : i ≡ count = omega arith in
      let last : advance (part i) (copying buffer count i) ≡ some (ending count, part i) =
        last_step i (omega arith) in
      alone_step (suc extra) (copying buffer count i) (ending count) (part i) (part i) last
      ∙ ap (λ j. alone (suc extra) (ending count) (part j)) same
      ∙ alone_step extra (ending count) (wrote (pos count)) (part count) written end_step
      ∙ alone-wrote extra (pos count) written
  alone-copying (suc k) i extra more =
      let next : i + 1 ≡ suc i = omega arith in
      alone_step (fuel_for k extra) (copying buffer count i) (copying buffer count (i + 1)) (part i)
        (part (suc i)) (copy_step i (omega arith))
      ∙ ap (λ j. alone (fuel_for k extra) (copying buffer count j) (part (suc i))) next
      ∙ alone-copying k (suc i) extra (omega (arith, more))

  -- From its first step on, with its fuel split.
  alone-checking :
      (fuel : ℕ) → 258 ≤ fuel → alone fuel (checking buffer count) s ≡ (wrote (pos count), written)
  unfolding advance part
  alone-checking fuel enough =
      let extra = fuel - (count + 3) in
      let split : fuel ≡ suc (fuel_for count extra) = omega (arith, fuel_for_lem count extra) in
      ap (λ f. alone f (checking buffer count) s) split
      ∙ alone_step (fuel_for count extra) (checking buffer count) (copying buffer count 0) s s
          (rw (le→ltb 255 count fits, advance) refl)
      ∙ alone-copying count 0 extra (omega arith)

too_long_alone :
    (fuel count : ℕ) (buffer : Bytes) (s : Buffer)
    → 0 < fuel
    → 255 < count
    → alone fuel (checking buffer count) s ≡ (wrote einval, s)
unfolding advance
too_long_alone zero count buffer s some_fuel big = absurd (omega arith)
too_long_alone (suc fuel) count buffer s some_fuel big =
    alone_step fuel (checking buffer count) (wrote einval) s s
      (rw (lt→ltb 255 count big, advance) refl)
    ∙ alone-wrote fuel einval s

-- A `proc_write` on a terminated message that no other process disturbs and whose copy does not fault has
-- ended after 258 steps, and leaves the value and the variables that the handler, taken as one step, leaves.
pub alone-proc_write :
    (u : UserCopy) (fuel count : ℕ) (buffer : Bytes) (s : Buffer)
    → CopyLaws u.copy_from_user
    → IsTerminated s
    → count ≤ length buffer
    → (u.copy_from_user s.proc_msg buffer count).1 ≡ 0
    → 258 ≤ fuel
    → alone fuel (checking buffer count) s
      ≡ (wrote (proc_write u buffer count s).0, (proc_write u buffer count s).1)
unfolding proc_write written
alone-proc_write u fuel count buffer s laws t long whole enough =
    elim (Bool-cases (ltb 255 count)) [
      | inl big ↦
          too_long_alone fuel count buffer s (omega arith) (ltb→lt 255 count big)
          ∙ rw (big, proc_write) refl
      | inr fits ↦
          let le = ltb→le 255 count fits in
          alone-checking buffer count s t.sized le long fuel enough
          ∙ rw
              (
                fits,
                whole,
                laws.copied s.proc_msg buffer count (omega (arith, t.sized)) long whole,
                proc_write,
              )
              refl
    ]
