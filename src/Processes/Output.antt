-- ===== src/Processes/Output.antt =====
-- exp1/exp1.2.1.c and exp2/exp2.1.1.c: what the executing programs print, on a terminal and elsewhere.
use grade15_1linux.Common.{ℕ, suc, ◌≡◌, refl, Bool, true, false, if◌then◌else◌, none, some, [], ◌∷◌}
use grade15_1linux.Processes.{
  child_calling, i_am_1_2_2, calling_2_1_2, i_am_2_1_2, my_child_is, fresh, child_value,
  parent_value, main_1_2_1, main_1_2_2, main_2_1_1, main_2_1_2,
}

-- With the program that they execute, both lines appear on a terminal; elsewhere the line printed
-- before the call is lost with the buffer.
pub executed :
    (terminal : Bool)
    → (main_1_2_1 (some main_1_2_2) child_value (fresh terminal)
        ≡ (if terminal then child_calling ∷ i_am_1_2_2 ∷ [] else i_am_1_2_2 ∷ []))
      × (main_2_1_1 (some main_2_1_2) (fresh terminal)
          ≡ (if terminal then calling_2_1_2 ∷ i_am_2_1_2 ∷ [] else i_am_2_1_2 ∷ []))
unfolding main_1_2_1 main_1_2_2 main_2_1_1 main_2_1_2
executed true = (refl, refl)
executed false = (refl, refl)

-- Without it, only the line printed before the call appears, and nothing says that it failed.
pub not_executed :
    (terminal : Bool)
    → (main_1_2_1 none child_value (fresh terminal) ≡ child_calling ∷ [])
      × (main_2_1_1 none (fresh terminal) ≡ calling_2_1_2 ∷ [])
unfolding main_1_2_1 main_2_1_1
not_executed true = (refl, refl)
not_executed false = (refl, refl)

-- The parent prints the process id of its child, or -1 as one when the fork has failed.
pub parent_prints :
    (terminal : Bool) (pid : ℕ)
    → (main_1_2_1 (some main_1_2_2) (parent_value (some (suc pid))) (fresh terminal)
        ≡ my_child_is (parent_value (some (suc pid))) ∷ [])
      × (main_1_2_1 (some main_1_2_2) (parent_value none) (fresh terminal)
          ≡ my_child_is (parent_value none) ∷ [])
unfolding main_1_2_1
parent_prints true pid = (refl, refl)
parent_prints false pid = (refl, refl)
