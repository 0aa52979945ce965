-- ===== src/TaskList/Leaving/Examples.antt =====
-- A run of exp1/exp1_8.c on a list of three tasks, one of which goes while the module walks, and instances
-- of the theorems.
use grade15_1linux.Common.{
  ℕ, ◌+◌, ◌*◌, ◌≤◌, ◌≡◌, ◌⊎◌, refl, arith, Bool, true, false, not, Option, none, some, ℤ, pos,
  negsuc, List, [], ◌∷◌, ◌++◌, ◌==◌, map, length,
}
use grade15_1linux.TaskList.{
  Task, Node, started, process, completed, Point, entering, stepping, returned, Walker, System,
  advance, place,
}
use grade15_1linux.TaskList.Ring.{node, Behind, stop, link}
use grade15_1linux.TaskList.Examples.{lock, unlock, swapper, systemd, shell, printed_one}
use grade15_1linux.TaskList.Leaving.{pass_over, Busy, begin, own_step, leaves}
use grade15_1linux.TaskList.Leaving.Chains.{staying}
use grade15_1linux.TaskList.Leaving.Staying.{Busy_prints, Busy_ends}

abbrev editor : Task
editor = record { pid = pos 3; comm = "vi" }

-- Every task but the shell stays.
abbrev not_shell : ℤ → Bool
not_shell (pos n) = not (n == 2)
not_shell (negsuc n) = true

abbrev stays : Task → Bool
stays d = not_shell d.pid

abbrev three_tasks : ℕ → Option Node
three_tasks =
    place (place (place (place (λ a. none) 1 (node swapper 2)) 2 (node systemd 3)) 3 (node shell 4))
      4 (node editor 1)

three_tasks-Behind : Behind three_tasks 1 1 swapper (systemd ∷ shell ∷ editor ∷ [])
three_tasks-Behind = record {
  next_of = 2;
  here = refl;
  rest = link (λ e. cc) refl (link (λ e. cc) refl (link (λ e. cc) refl stop));
}

abbrev before : System Bool Bool
before = record {
  nodes = three_tasks;
  walker = record { point = entering; count = 7; flags = none; output = []; kernel = false };
}

one_printed :
    Busy lock unlock 1 stays before 4 0 (record { nodes = three_tasks; walker = printed_one })
unfolding advance
one_printed = own_step (own_step (own_step (own_step begin refl) refl) refl) refl

abbrev without_shell : ℕ → Option Node
without_shell = pass_over 2 systemd 4 three_tasks

shell_gone :
    Busy lock unlock 1 stays before 4 0 (record { nodes = without_shell; walker = printed_one })
shell_gone = leaves {r = 3} {e = shell} one_printed refl (λ e. cc) refl refl

abbrev at_end : Walker Bool Bool
at_end = record {
  point = returned;
  count = 2;
  flags = some false;
  output = started ∷ process systemd ∷ process editor ∷ completed 2 ∷ [];
  kernel = false;
}

busy_ended :
    Busy lock unlock 1 stays before 10 0 (record { nodes = without_shell; walker = at_end })
unfolding advance
busy_ended =
    own_step
      (own_step (own_step (own_step (own_step (own_step shell_gone refl) refl) refl) refl) refl)
      refl

Busy_prints_example :
    (printed : List Task) × (started ∷ process systemd ∷ process editor ∷ completed 2 ∷ []
      ≡ started ∷ map process printed ++ completed (length printed) ∷ [])
    × (staying stays printed ≡ staying stays (systemd ∷ shell ∷ editor ∷ []))
    × (◌≡◌ {A = Bool} false false)
    × (10 ≡ 3 * length printed + 4)
Busy_prints_example =
    Busy_prints lock unlock 1 stays (λ k. refl) before swapper (systemd ∷ shell ∷ editor ∷ [])
      three_tasks-Behind refl refl busy_ended refl

Busy_ends_example :
    (4 ≤ 3 * (3 + 0) + 4)
    × ((◌≡◌ {A = Point} (stepping 2) returned)
        ⊎ ((w : Walker Bool Bool) × Busy lock unlock 1 stays before 5 0
              (record { nodes = without_shell; walker = w })))
Busy_ends_example =
    Busy_ends lock unlock 1 stays (λ k. refl) before swapper (systemd ∷ shell ∷ editor ∷ [])
      three_tasks-Behind refl refl shell_gone (omega arith)
