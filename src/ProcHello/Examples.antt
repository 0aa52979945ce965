-- ===== src/ProcHello/Examples.antt =====
-- Runs of the handlers of exp3/exp3.1.c, and instances of the theorems about them.
use grade15_1linux.Common.{◌≡◌, refl, arith, [], ◌∷◌, Bytes, strlen, replicate, pos}
use grade15_1linux.UserCopy.Plain.{plain, plain_copy-CopyLaws, plain_copy_whole}
use grade15_1linux.ProcHello.{initial, initial_msg, proc_write}
use grade15_1linux.ProcHello.Message.{IsTerminated}
use grade15_1linux.ProcHello.Session.{write, read, run, file_run, view, run_refines}

abbrev hi : Bytes
hi = b'h' ∷ b'i' ∷ []

abbrev room : Bytes
room = replicate 255 7

initial-IsTerminated : IsTerminated initial
initial-IsTerminated = record { sized = refl; last = refl }

initial_text : (strlen initial_msg ≡ 14) × ((proc_write plain hi 2 initial).0 ≡ pos 2)
unfolding proc_write strlen
initial_text = (refl, refl)

initial_strlen : strlen initial_msg ≡ 14
unfolding strlen
initial_strlen = refl

run_refines_example :
    run plain (write hi ∷ read room 255 ∷ read room 255 ∷ []) initial
    ≡ file_run (write hi ∷ read room 255 ∷ read room 255 ∷ []) (view initial)
run_refines_example =
    run_refines plain plain_copy-CopyLaws plain_copy-CopyLaws plain_copy_whole plain_copy_whole
      (write hi ∷ read room 255 ∷ read room 255 ∷ []) initial initial-IsTerminated (omega arith)

file_run_result :
    file_run (write hi ∷ read room 255 ∷ read room 255 ∷ []) (view initial)
    ≡ (pos 2, []) ∷ (pos 2, hi) ∷ (pos 0, []) ∷ []
unfolding file_run strlen
file_run_result = refl
