-- ===== src/TaskList/Examples.antt =====
-- Runs of exp1/exp1_8.c on a list of two tasks, one of them added while the module walks, and instances
-- of the theorems.
use grade15_1linux.Common.{
  ℕ, ◌+◌, ◌*◌, ◌≡◌, refl, arith, Bool, true, false, Option, none, some, pos, List, [], ◌∷◌, ◌++◌,
  map, length,
}
use grade15_1linux.TaskList.{
  Task, Node, started, process, completed, entering, stepping, returned, Walker, System, advance,
  place, add_tail, Run, start, own, fork,
}
use grade15_1linux.TaskList.Ring.{node, stop, link, HasOneLast, IsTaskList}
use grade15_1linux.TaskList.Ending.{Run_prints}

-- The lock and the interrupts as one Boolean, true while they are off.
abbrev pub lock : Bool → Bool × Bool
lock k = (k, true)

abbrev pub unlock : Bool → Bool → Bool
unlock f k = f

abbrev pub swapper : Task
swapper = record { pid = pos 0; comm = "swapper" }

abbrev pub systemd : Task
systemd = record { pid = pos 1; comm = "systemd" }

abbrev pub shell : Task
shell = record { pid = pos 2; comm = "sh" }

-- The head at 1 and one task at 2.
abbrev one_task : ℕ → Option Node
one_task = place (place (λ a. none) 1 (node swapper 2)) 2 (node systemd 1)

one_task-HasOneLast : HasOneLast one_task 1
one_task-HasOneLast p q d e at_p at_q = ground arith

one_task-IsTaskList : IsTaskList one_task 1 swapper (systemd ∷ [])
one_task-IsTaskList = record {
  all = record { next_of = 2; here = refl; rest = link (λ e. cc) refl stop };
  one_last = one_task-HasOneLast;
}

abbrev before : System Bool Bool
before = record {
  nodes = one_task;
  walker = record { point = entering; count = 7; flags = none; output = []; kernel = false };
}

abbrev two_tasks : ℕ → Option Node
two_tasks = add_tail 1 2 systemd 3 shell one_task

abbrev pub printed_one : Walker Bool Bool
printed_one = record {
  point = stepping 2;
  count = 1;
  flags = some false;
  output = started ∷ process systemd ∷ [];
  kernel = true;
}

first_steps : Run lock unlock 1 before 4 [] (record { nodes = one_task; walker = printed_one })
unfolding advance
first_steps = own (own (own (own start refl) refl) refl) refl

forked :
    Run lock unlock 1 before 4 (shell ∷ []) (record { nodes = two_tasks; walker = printed_one })
forked = fork shell first_steps refl refl

abbrev at_end : Walker Bool Bool
at_end = record {
  point = returned;
  count = 2;
  flags = some false;
  output = started ∷ process systemd ∷ process shell ∷ completed 2 ∷ [];
  kernel = false;
}

ended : Run lock unlock 1 before 10 (shell ∷ []) (record { nodes = two_tasks; walker = at_end })
unfolding advance
ended = own (own (own (own (own (own forked refl) refl) refl) refl) refl) refl

Run_prints_example :
    (seen : List Task) × (missed : List Task) × (shell ∷ [] ≡ seen ++ missed)
    × (started ∷ process systemd ∷ process shell ∷ completed 2 ∷ []
        ≡ started ∷ map process (systemd ∷ seen) ++ completed (length (systemd ∷ seen)) ∷ [])
    × (◌≡◌ {A = Bool} false false)
    × (10 ≡ 3 * length (systemd ∷ seen) + 4)
Run_prints_example =
    Run_prints lock unlock 1 (λ k. refl) before swapper (systemd ∷ []) one_task-IsTaskList refl refl
      ended refl
