-- ===== src/TaskList.antt =====
-- exp1/exp1_8.c: the module that prints every task of the kernel's list, while the kernel goes on
-- creating tasks: the lock that the module takes is one of its own. Ring is the list in the memory, Walk,
-- Ready and Forks what every run keeps, Ending how the runs end, and Leaving the runs in which tasks
-- also go.
pub mod Ring
pub mod Walk
pub mod Ready
pub mod Forks
pub mod Ending
pub mod Leaving
mod Examples
use Prim.Native.String.{String}
use grade15_1linux.Common.{
  ℕ, ◌+◌, ◌-◌, ◌^◌, ◌≡◌, ◌==◌, if◌then◌else◌, leb, Option, none, some, ℤ, List, [], ◌∷◌, ◌++◌,
}

-- The fields of `struct task_struct` that the module prints.
pub record Task : Type 0 where
  pub pid : ℤ
  pub comm : String

-- A task at the address of its `tasks`, and the pointer `tasks.next`.
pub record Node : Type 0 where
  pub task : Task
  pub next : ℕ

pub data Line : Type 0 where
  started unloading : Line
  process : Task → Line
  completed : ℕ → Line

-- Where `task_info_init` is: at its start, before `list = list->next`, before `list != head`, before
-- the body of the loop, behind the loop, and behind its end.
pub data Point : Type 0 where
  entering unlocking returned : Point
  stepping testing visiting : ℕ → Point

-- `count` and `flags`, what has been printed, and the state of the lock and of the interrupts.
pub record Walker (F K : Type 0) : Type 0 where
  pub point : Point
  pub count : ℕ
  pub flags : Option F
  pub output : List Line
  pub kernel : K

abbrev pub int_max : ℕ
int_max = 2 ^ 31 - 1

-- `head` is the address of `init_task.tasks`; `spin_lock_irqsave` gives the flags that it saves.
module _ {F K : Type 0} (spin_lock_irqsave : K → F × K) (spin_unlock_irqrestore : F → K → K)
    (head : ℕ) where
  -- The next step of `task_info_init`: `none` behind its end, and at a fault, which is an access where
  -- no task is, or an overflow of `count`.
  unfoldable pub advance : Point → (ℕ → Option Node) → Walker F K → Option (Walker F K)
  advance entering nodes w = some (record {
    point = stepping head;
    count = 0;
    flags = some (spin_lock_irqsave w.kernel).0;
    output = w.output ++ started ∷ [];
    kernel = (spin_lock_irqsave w.kernel).1;
  })
  advance (stepping list) nodes w = elim (nodes list) [
    | none ↦ none
    | some n ↦ some (record w { point = testing n.next })
  ]
  advance (testing list) nodes w =
      some (record w { point = if list == head then unlocking else visiting list })
  advance (visiting list) nodes w = elim (nodes list) [
    | none ↦ none
    | some n ↦
        if leb int_max w.count
        then none
        else some (record w {
          point = stepping list;
          count = w.count + 1;
          output = w.output ++ process n.task ∷ [];
        })
  ]
  advance unlocking nodes w = elim w.flags [
    | none ↦ none
    | some f ↦ some (record w {
      point = returned;
      output = w.output ++ completed w.count ∷ [];
      kernel = spin_unlock_irqrestore f w.kernel;
    })
  ]
  advance returned nodes w = none

abbrev pub task_info_exit : List Line → List Line
task_info_exit output = output ++ unloading ∷ []

abbrev pub place : (ℕ → Option Node) → ℕ → Node → ℕ → Option Node
place nodes p n a = if a == p then some n else nodes a

-- A new task behind the last one, `q`, of the list.
abbrev pub add_tail : ℕ → ℕ → Task → ℕ → Task → (ℕ → Option Node) → ℕ → Option Node
add_tail head q last a new nodes =
    place (place nodes q (record { task = last; next = a })) a (record { task = new; next = head })

pub record System (F K : Type 0) : Type 0 where
  pub nodes : ℕ → Option Node
  pub walker : Walker F K

module _ {F K : Type 0} (spin_lock_irqsave : K → F × K) (spin_unlock_irqrestore : F → K → K)
    (head : ℕ) where
  -- The states after `n` steps of the module, while the kernel has added the tasks `fs` to the list,
  -- one after the other and at any time. A new task has an address where nothing was.
  pub data Run (s : System F K) : ℕ → List Task → System F K → Type 0 where
    start : Run s 0 [] s
    own :
        {n : ℕ} {fs : List Task} {t : System F K} {w : Walker F K}
        → Run s n fs t
        → advance spin_lock_irqsave spin_unlock_irqrestore head t.walker.point t.nodes t.walker
          ≡ some w
        → Run s (n + 1) fs (record { nodes = t.nodes; walker = w })
    fork :
        {n q a : ℕ} {last : Task} {fs : List Task} {t : System F K} (new : Task)
        → Run s n fs t
        → t.nodes q ≡ some (record { task = last; next = head })
        → t.nodes a ≡ none
        → Run s n
            (fs ++ new ∷ [])
            (record { nodes = add_tail head q last a new t.nodes; walker = t.walker })
