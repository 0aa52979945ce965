-- ===== src/ProcHello/Interleaving/Safety.antt =====
-- exp3/exp3.1.c: no interleaving of the handlers leaves the array PROC_MSG.
use grade15_1linux.Common.{
  along, ℕ, ◌+◌, ◌≤◌, ◌<◌, ◌≡◌, ◌⊎◌, ◌∙◌, refl, ap, sym, arith, Bool, true, false, Bool-cases, some,
  Option-cases, [], ◌∷◌, ◌++◌, ltb, ltb→lt, ltb→le, lt→ltb, ◌==◌, if◌then◌else◌, Bytes, get_elem?,
  set, length, length-set, length-append, get_elem?-set_ne, ◌≢◌, ℤ, pos, efault, einval, inl, inr,
}
use grade15_1linux.ProcHello.{Buffer}
use grade15_1linux.ProcHello.Message.{IsTerminated, last-set}
use grade15_1linux.ProcHello.Interleaving.{
  Strlen, for_copy, for_position, for_value, Point, outside, testing, clearing, marking, checking,
  copying, ending, measuring, delivering, wrote, read, measured, advance, fault, is_outside, System,
  move, Step, acts, faults, writes, reads, Run, start, next,
}

abbrev Fits : Strlen → Type 0
Fits for_copy = Unit {0}
Fits (for_position out) = length out ≤ 255
Fits (for_value out) = length out ≤ 255

abbrev ValueFits : ℤ → Type 0
ValueFits (pos n) = n ≤ 255
ValueFits _ = Unit {0}

-- What a process knows of its indices where it is.
abbrev pub InRange : Point → Type 0
InRange (copying buffer count i) = (count ≤ 255) × (i ≤ count)
InRange (ending count) = count ≤ 255
InRange (measuring k i) = (i ≤ 255) × Fits k
InRange (delivering n out) = (n ≤ 255) × (length out ≤ n)
InRange (read code out) = ValueFits code × (length out ≤ 255)
InRange _ = Unit {0}

-- A byte that is not the last one is written.
set-IsTerminated :
    (s : Buffer) (i b : ℕ)
    → i < 255
    → IsTerminated s
    → IsTerminated (record s { proc_msg = set s.proc_msg i b })
set-IsTerminated s i b lt t = record {
  sized = length-set s.proc_msg i b ∙ t.sized;
  last = get_elem?-set_ne s.proc_msg i 255 b (λ e. omega arith) ∙ t.last;
}

nul-IsTerminated :
    (s : Buffer) (i : ℕ)
    → i ≤ 255
    → IsTerminated s
    → IsTerminated (record s { proc_msg = set s.proc_msg i 0 })
nul-IsTerminated s i le t = record {
  sized = length-set s.proc_msg i 0 ∙ t.sized;
  last = last-set s.proc_msg i t.sized le t.last;
}

-- A byte of the array, as long as the index is inside.
pub get_elem?-inside : (xs : Bytes) (i : ℕ) → i < length xs → (b : ℕ) × (get_elem? xs i ≡ some b)
get_elem?-inside [] i lt = absurd (omega arith)
get_elem?-inside (x ∷ xs) ℕ.zero lt = (x, refl)
get_elem?-inside (x ∷ xs) (ℕ.suc i) lt = get_elem?-inside xs i (omega arith)

-- The state that a step leaves.
abbrev pub Safe : Point × Buffer → Type 0
Safe r = InRange r.0 × IsTerminated r.1

measured-InRange : (k : Strlen) (n : ℕ) → n ≤ 255 → Fits k → InRange (measured k n)
measured-InRange for_copy n le fits = (le, omega arith)
measured-InRange (for_position out) n le fits = (omega arith, fits)
measured-InRange (for_value out) n le fits = (le, fits)

-- The byte at index 255 is NUL, so that a `strlen` does not go on there.
measuring-InRange :
    (s : Buffer) (k : Strlen) (i b : ℕ)
    → IsTerminated s
    → i ≤ 255
    → Fits k
    → get_elem? s.proc_msg i ≡ some b
    → InRange (if b == 0 then measured k i else measuring k (i + 1))
measuring-InRange s k i b t le fits here = elim (Bool-cases (b == 0)) [
  | inl nul ↦ rw nul (measured-InRange k i le fits)
  | inr other ↦
      let inside : i ≢ 255 = λ e.
        let last : some b ≡ some 0 = sym here ∙ ap (λ j. get_elem? s.proc_msg j) e ∙ t.last in
        let nul : b ≡ 0 = cc in ground arith in
      rw other (omega (arith, inside), fits)
]

testing-InRange : (finished : Bool) → InRange (if finished then clearing else marking)
testing-InRange true = tt
testing-InRange false = tt

-- A process outside the handlers has no next step in them.
outside_still :
    (s : Buffer) (x : Point) (r : Point × Buffer) → is_outside x ≡ true → advance s x ≢ some r
unfolding advance
outside_still s outside r free e = absurd (cc)
outside_still s (wrote code) r free e = absurd (cc)
outside_still s (read code out) r free e = absurd (cc)
outside_still s testing r free e = absurd (cc)
outside_still s clearing r free e = absurd (cc)
outside_still s marking r free e = absurd (cc)
outside_still s (checking buffer count) r free e = absurd (cc)
outside_still s (copying buffer count i) r free e = absurd (cc)
outside_still s (ending count) r free e = absurd (cc)
outside_still s (measuring k i) r free e = absurd (cc)
outside_still s (delivering n out) r free e = absurd (cc)

-- A process in a handler has a next step, and this is inside the array.
pub advance-Safe :
    (s : Buffer) (x : Point)
    → IsTerminated s
    → InRange x
    → (is_outside x ≡ true) ⊎ ((r : Point × Buffer) × (advance s x ≡ some r) × Safe r)
unfolding advance
advance-Safe s outside t h = inl refl
advance-Safe s (wrote code) t h = inl refl
advance-Safe s (read code out) t h = inl refl
advance-Safe s (checking buffer count) t h = elim (Bool-cases (ltb 255 count)) [
  | inl big ↦ inr ((wrote einval, s), rw (big, advance) refl, (tt, t))
  | inr fits ↦ inr (
    (copying buffer count 0, s),
    rw (fits, advance) refl,
    ((ltb→le 255 count fits, omega arith), t),
  )
]
advance-Safe s (copying buffer count i) t (le, low) = elim (Bool-cases (ltb i count)) [
  | inl more ↦ elim (Option-cases (get_elem? buffer i)) [
    | inl gone ↦ inr ((wrote efault, s), rw (more, gone, advance) refl, (tt, t))
    | inr (b, here) ↦
        let lt = ltb→lt i count more in
        let inside : ltb i (length s.proc_msg) ≡ true =
          lt→ltb i (length s.proc_msg) (omega (arith, t.sized)) in
        inr (
          (copying buffer count (i + 1), record s { proc_msg = set s.proc_msg i b }),
          rw (more, here, inside, advance) refl,
          ((le, omega arith), set-IsTerminated s i b (omega arith) t),
        )
  ]
  | inr last ↦ inr ((ending count, s), rw (last, advance) refl, (le, t))
]
advance-Safe s (ending count) t h =
    let inside : ltb count (length s.proc_msg) ≡ true =
      lt→ltb count (length s.proc_msg) (omega (arith, t.sized)) in
    inr (
      (wrote (pos count), record s { proc_msg = set s.proc_msg count 0 }),
      rw (inside, advance) refl,
      (tt, nul-IsTerminated s count h t),
    )
advance-Safe s testing t h = inr (_, refl, (testing-InRange s.finished, t))
advance-Safe s clearing t h =
    inr (_, refl, ((omega arith, omega arith), record { sized = t.sized; last = t.last }))
advance-Safe s marking t h =
    inr (_, refl, ((omega arith, tt), record { sized = t.sized; last = t.last }))
advance-Safe s (measuring k i) t (le, fits) =
    let (b, here) = get_elem?-inside s.proc_msg i (omega (arith, t.sized)) in
    inr (
      (if b == 0 then measured k i else measuring k (i + 1), s),
      rw (here, advance) refl,
      (measuring-InRange s k i b t le fits here, t),
    )
advance-Safe s (delivering n out) t (le, low) = elim (Bool-cases (ltb (length out) n)) [
  | inl more ↦
      let lt = ltb→lt (length out) n more in
      let (b, here) = get_elem?-inside s.proc_msg (length out) (omega (arith, t.sized)) in
      inr (
        (delivering n (out ++ b ∷ []), s),
        rw (more, here, advance) refl,
        ((le, omega (arith, length-append out (b ∷ []))), t),
      )
  | inr last ↦ inr (
    (measuring (for_position out) 0, s),
    rw (last, advance) refl,
    ((omega arith, omega (arith, low, le)), t),
  )
]

fault-InRange : (x y : Point) → InRange x → fault x ≡ some y → InRange y
fault-InRange (copying buffer count i) y h e = along InRange e tt
fault-InRange (delivering n out) y (le, low) e = along InRange e (tt, omega arith)
fault-InRange outside y h e = absurd (cc)
fault-InRange testing y h e = absurd (cc)
fault-InRange clearing y h e = absurd (cc)
fault-InRange marking y h e = absurd (cc)
fault-InRange (checking buffer count) y h e = absurd (cc)
fault-InRange (ending count) y h e = absurd (cc)
fault-InRange (measuring k i) y h e = absurd (cc)
fault-InRange (wrote code) y h e = absurd (cc)
fault-InRange (read code out) y h e = absurd (cc)

-- One process moves.
move-InRange :
    (p : ℕ) (x : Point) (f : ℕ → Point)
    → InRange x
    → ((q : ℕ) → InRange (f q))
    → (q : ℕ) → InRange (move p x f q)
move-InRange p x f now before q = elim (Bool-cases (p == q)) [
  | inl same ↦ rw same now
  | inr other ↦ rw other (before q)
]

-- What every interleaving keeps.
record Inv (s : System) : Type 0 where
  message : IsTerminated s.shared
  indices : (p : ℕ) → InRange (s.processes p)

acted-Safe :
    (s : Buffer) (x : Point) (r : Point × Buffer)
    → IsTerminated s
    → InRange x
    → advance s x ≡ some r
    → Safe r
unfolding advance
acted-Safe s x r t h e = elim (advance-Safe s x t h) [
  | inl out ↦ absurd (outside_still s x r out e)
  | inr (r', e', safe) ↦ let same : some r' ≡ some r = sym e' ∙ e in along Safe same safe
]

Step-Inv : (s t : System) → Step s t → Inv s → Inv t
Step-Inv s t (acts p {x} {b} e) i =
    let (h, m) = acted-Safe s.shared (s.processes p) (x, b) i.message (i.indices p) e in
    record { message = m; indices = move-InRange p x s.processes h i.indices }
Step-Inv s t (faults p {x} e) i = record {
  message = i.message;
  indices =
      move-InRange p x s.processes (fault-InRange (s.processes p) x (i.indices p) e) i.indices;
}
Step-Inv s t (writes p buffer count free) i = record {
  message = i.message;
  indices = move-InRange p (checking buffer count) s.processes tt i.indices;
}
Step-Inv s t (reads p free) i = record {
  message = i.message;
  indices = move-InRange p testing s.processes tt i.indices;
}

Run-Inv : {s : System} → Run s → Inv s
Run-Inv start = record { message = record { sized = refl; last = refl }; indices = λ p. tt }
Run-Inv (next {s} {t} run step) = Step-Inv s t step (Run-Inv run)

-- In every interleaving of any number of reads and writes, with faults of the copies anywhere: PROC_MSG
-- keeps its size and the NUL in its last byte; every process in a handler has a next step, which does
-- not read or write outside the array, so that each `strlen` ends inside it; and a read that has returned
-- has delivered at most 255 bytes and returned at most 255.
pub Run_inside :
    {s : System} (p : ℕ)
    → Run s
    → IsTerminated s.shared
      × ((is_outside (s.processes p) ≡ true)
          ⊎ ((r : Point × Buffer) × (advance s.shared (s.processes p) ≡ some r) × Safe r))
      × InRange (s.processes p)
Run_inside {s} p run =
    let i = Run-Inv run in
    (i.message, advance-Safe s.shared (s.processes p) i.message (i.indices p), i.indices p)
