-- ===== src/ProcHello/Interleaving/Examples.antt =====
-- A run of two processes over exp3/exp3.1.c, whose read returns a byte that it has not delivered, and an
-- instance of the theorem.
use grade15_1linux.Common.{
  ℕ, ◌≤◌, ◌<◌, ◌≡◌, ◌⊎◌, ◌∙◌, refl, ap, ap₂, true, false, some, [], ◌∷◌, Bytes, set, pos, arith,
  strlen, replicate,
}
use grade15_1linux.ProcHello.{Buffer, initial, initial_msg}
use grade15_1linux.ProcHello.Interleaving.Alone.{alone}
use grade15_1linux.ProcHello.Interleaving.RoundTrip.{text_returns}
use grade15_1linux.ProcHello.Message.{IsTerminated}
use grade15_1linux.ProcHello.Interleaving.{
  for_position, Point, outside, testing, checking, measuring, wrote, read, advance, is_outside,
  System, acts, writes, reads, Run, start, next,
}
use grade15_1linux.ProcHello.Interleaving.Safety.{InRange, Safe, Run_inside}
use grade15_1linux.ProcHello.Interleaving.Progress.{rank, Run_finishes}

-- A run up to a state of the shared variables, of process 0 and of process 1.
record Stage (b : Buffer) (x y : Point) : Type 0 where
  state : System
  run : Run state
  shared : state.shared ≡ b
  first : state.processes 0 ≡ x
  second : state.processes 1 ≡ y

first_acts :
    {b b' : Buffer} {x x' y : Point} → Stage b x y → advance b x ≡ some (x', b') → Stage b' x' y
first_acts st e = record {
  state = _;
  run = next st.run (acts 0 (ap₂ advance st.shared st.first ∙ e));
  shared = refl;
  first = refl;
  second = st.second;
}

second_acts :
    {b b' : Buffer} {x y y' : Point} → Stage b x y → advance b y ≡ some (y', b') → Stage b' x y'
second_acts st e = record {
  state = _;
  run = next st.run (acts 1 (ap₂ advance st.shared st.second ∙ e));
  shared = refl;
  first = st.first;
  second = refl;
}

first_writes :
    {b : Buffer} {x y : Point} (buffer : Bytes) (count : ℕ)
    → is_outside x ≡ true
    → Stage b x y
    → Stage b (checking buffer count) y
first_writes buffer count free st = record {
  state = _;
  run = next st.run (writes 0 buffer count (ap is_outside st.first ∙ free));
  shared = st.shared;
  first = refl;
  second = st.second;
}

second_reads : {b : Buffer} {x : Point} → Stage b x outside → Stage b x testing
second_reads st = record {
  state = _;
  run = next st.run (reads 1 (ap is_outside st.second));
  shared = st.shared;
  first = st.first;
  second = refl;
}

abbrev emptied : Buffer
emptied = record { proc_msg = set initial_msg 0 0; finished = false }

-- The message is emptied, and then read.
emptying : Stage emptied (wrote (pos 0)) outside
unfolding advance
emptying =
    first_acts
      (first_acts
        (first_acts
          (first_writes [] 0 refl
            (record { state = _; run = start; shared = refl; first = refl; second = refl }))
          refl)
        refl)
      refl

abbrev measured_empty : Buffer
measured_empty = record emptied { finished = true }

nothing_delivered : Stage measured_empty (wrote (pos 0)) (measuring (for_position []) 0)
unfolding advance
nothing_delivered =
    second_acts (second_acts (second_acts (second_acts (second_reads emptying) refl) refl) refl)
      refl

abbrev one_byte : Buffer
one_byte = record { proc_msg = set (set emptied.proc_msg 0 b'A') 1 0; finished = true }

-- Before it measures again, the message gets a byte.
byte_written : Stage one_byte (wrote (pos 1)) (measuring (for_position []) 0)
unfolding advance
byte_written =
    first_acts
      (first_acts
        (first_acts (first_acts (first_writes (b'A' ∷ []) 1 refl nothing_delivered) refl) refl)
        refl)
      refl

-- The read then returns 1, but has delivered nothing.
torn_read : Stage one_byte (wrote (pos 1)) (read (pos 1) [])
unfolding advance
torn_read = second_acts (second_acts (second_acts (second_acts byte_written refl) refl) refl) refl

Run_inside_example :
    IsTerminated byte_written.state.shared
    × ((is_outside (byte_written.state.processes 1) ≡ true)
        ⊎ ((r : Point × Buffer) × (advance byte_written.state.shared
                (byte_written.state.processes 1)
              ≡ some r)
            × Safe r))
    × InRange (byte_written.state.processes 1)
Run_inside_example = Run_inside 1 byte_written.run

Run_finishes_example :
    (rank (nothing_delivered.state.processes 1) ≤ 1026)
    × ((is_outside (nothing_delivered.state.processes 1) ≡ true)
        ⊎ ((r : Point × Buffer) × (advance nothing_delivered.state.shared
                (nothing_delivered.state.processes 1)
              ≡ some r)
            × (rank r.0 < rank (nothing_delivered.state.processes 1))))
Run_finishes_example = Run_finishes 1 nothing_delivered.run

abbrev hi : Bytes
hi = b'h' ∷ b'i' ∷ []

abbrev room : Bytes
room = replicate 255 7

initial-IsTerminated : IsTerminated initial
initial-IsTerminated = record { sized = refl; last = refl }

text_returns_example :
    (s' : Buffer) × (alone 1026 (checking hi 2) initial ≡ (wrote (pos 2), s'))
    × (alone 1026 testing s' ≡ (read (pos 2) hi, record s' { finished = true }))
    × (alone 1026 testing (record s' { finished = true }) ≡ (read (pos 0) [], s'))
unfolding strlen
text_returns_example =
    text_returns 1026 hi initial initial-IsTerminated refl (omega arith) (omega arith)
