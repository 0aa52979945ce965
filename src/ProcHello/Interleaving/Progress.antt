-- ===== src/ProcHello/Interleaving/Progress.antt =====
-- exp3/exp3.1.c: every call of a handler ends by its own steps, whatever the other processes do.
use grade15_1linux.Common.{
  ℕ, ◌+◌, ◌-◌, ◌≤◌, ◌<◌, ◌≡◌, ◌⊎◌, arith, Bool, true, false, Bool-cases, some, Option-cases, [],
  ◌∷◌, ltb, ltb→lt, ltb→le, ◌==◌, if◌then◌else◌, get_elem?, length, length-append, along, inl, inr,
}
use grade15_1linux.ProcHello.{Buffer}
use grade15_1linux.ProcHello.Interleaving.{
  Strlen, for_copy, for_position, for_value, Point, outside, testing, clearing, marking, checking,
  copying, ending, measuring, delivering, wrote, read, measured, advance, is_outside, System, Run,
}
use grade15_1linux.ProcHello.Interleaving.Safety.{InRange, Run_inside}

-- A bound on the steps that a process still makes in its handler.
abbrev pub rank : Point → ℕ
rank (checking buffer count) = 258
rank (copying buffer count i) = count - i + 2
rank (ending count) = 1
rank testing = 1026
rank clearing = 1
rank marking = 1025
rank (measuring for_copy i) = 256 - i + 768
rank (measuring (for_position out) i) = 256 - i + 256
rank (measuring (for_value out) i) = 256 - i
rank (delivering n out) = n - length out + 513
rank _ = 0

abbrev Falls : Point → Point × Buffer → Type 0
Falls x r = rank r.0 < rank x

tested : (finished : Bool) → rank (if finished then clearing else marking) < 1026
tested true = omega arith
tested false = omega arith

measured_lower : (k : Strlen) (i : ℕ) → i ≤ 255 → rank (measured k i) < rank (measuring k i)
measured_lower for_copy i le = omega arith
measured_lower (for_position out) i le = omega arith
measured_lower (for_value out) i le = omega arith

next_lower : (k : Strlen) (i : ℕ) → i ≤ 255 → rank (measuring k (i + 1)) < rank (measuring k i)
next_lower for_copy i le = omega arith
next_lower (for_position out) i le = omega arith
next_lower (for_value out) i le = omega arith

advance_lower :
    (s : Buffer) (x : Point) (r : Point × Buffer) → InRange x → advance s x ≡ some r → Falls x r
unfolding advance
advance_lower s outside r h e = absurd (cc)
advance_lower s (wrote code) r h e = absurd (cc)
advance_lower s (read code out) r h e = absurd (cc)
advance_lower s (checking buffer count) r h e = elim (Bool-cases (ltb 255 count)) [
  | inl big ↦
      let e' = rw (big, advance) at e in along (Falls (checking buffer count)) e' (omega arith)
  | inr fits ↦
      let e' = rw (fits, advance) at e in
      along (Falls (checking buffer count)) e' (omega (arith, ltb→le 255 count fits))
]
advance_lower s (copying buffer count i) r h e = elim (Bool-cases (ltb i count)) [
  | inl more ↦ elim (Option-cases (get_elem? buffer i)) [
    | inl gone ↦
        let e' = rw (more, gone, advance) at e in
        along (Falls (copying buffer count i)) e' (omega arith)
    | inr (b, here) ↦ elim (Bool-cases (ltb i (length s.proc_msg))) [
      | inl inside ↦
          let e' = rw (more, here, inside, advance) at e in
          along (Falls (copying buffer count i)) e' (omega (arith, ltb→lt i count more))
      | inr behind ↦ let e' = rw (more, here, behind, advance) at e in absurd (cc)
    ]
  ]
  | inr last ↦
      let e' = rw (last, advance) at e in along (Falls (copying buffer count i)) e' (omega arith)
]
advance_lower s (ending count) r h e = elim (Bool-cases (ltb count (length s.proc_msg))) [
  | inl inside ↦ let e' = rw (inside, advance) at e in along (Falls (ending count)) e' (omega arith)
  | inr behind ↦ let e' = rw (behind, advance) at e in absurd (cc)
]
advance_lower s testing r h e = along (Falls testing) e (tested s.finished)
advance_lower s clearing r h e = along (Falls clearing) e (omega arith)
advance_lower s marking r h e = along (Falls marking) e (omega arith)
advance_lower s (measuring k i) r (le, fits) e = elim (Option-cases (get_elem? s.proc_msg i)) [
  | inl gone ↦ let e' = rw (gone, advance) at e in absurd (cc)
  | inr (b, here) ↦ elim (Bool-cases (b == 0)) [
    | inl nul ↦
        let e' = rw (nul) at (rw (here, advance) at e) in
        along (Falls (measuring k i)) e' (measured_lower k i le)
    | inr other ↦
        let e' = rw (other) at (rw (here, advance) at e) in
        along (Falls (measuring k i)) e' (next_lower k i le)
  ]
]
advance_lower s (delivering n out) r (le, low) e = elim (Bool-cases (ltb (length out) n)) [
  | inl more ↦ elim (Option-cases (get_elem? s.proc_msg (length out))) [
    | inl gone ↦ let e' = rw (more, gone, advance) at e in absurd (cc)
    | inr (b, here) ↦
        let e' = rw (more, here, advance) at e in
        along (Falls (delivering n out)) e'
          (omega (arith, ltb→lt (length out) n more, length-append out (b ∷ [])))
  ]
  | inr last ↦ let e' = rw (last, advance) at e in along (Falls (delivering n out)) e' (omega arith)
]

rank_bound : (x : Point) → InRange x → rank x ≤ 1026
rank_bound outside h = omega arith
rank_bound testing h = omega arith
rank_bound clearing h = omega arith
rank_bound marking h = omega arith
rank_bound (checking buffer count) h = omega arith
rank_bound (copying buffer count i) h = omega (arith, h.0)
rank_bound (ending count) h = omega arith
rank_bound (measuring for_copy i) h = omega arith
rank_bound (measuring (for_position out) i) h = omega arith
rank_bound (measuring (for_value out) i) h = omega arith
rank_bound (delivering n out) h = omega (arith, h.0)
rank_bound (wrote code) h = omega arith
rank_bound (read code out) h = omega arith

-- A call of a handler ends after at most 1026 steps of its own process, whatever the others do between
-- them: a process in a handler always has a next step, and this lowers a number that is at
-- most 1026.
pub Run_finishes :
    {s : System} (p : ℕ)
    → Run s
    → (rank (s.processes p) ≤ 1026)
      × ((is_outside (s.processes p) ≡ true)
          ⊎ ((r : Point × Buffer) × (advance s.shared (s.processes p) ≡ some r)
              × (rank r.0 < rank (s.processes p))))
Run_finishes {s} p run =
    let (message, next, inside) = Run_inside p run in
    (
      rank_bound (s.processes p) inside,
      elim next [
        | inl out ↦ inl out
        | inr (r, e, safe) ↦ inr (r, e, advance_lower s.shared (s.processes p) r inside e)
      ],
    )
