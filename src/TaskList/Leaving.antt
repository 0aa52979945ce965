-- ===== src/TaskList/Leaving.antt =====
-- exp1/exp1_8.c: the module while tasks of the kernel's list come and go. A task that goes is passed over
-- by the one before it, but keeps its own pointer and its memory, as the kernel's lists do while
-- interrupts are off. Chains is the list under such a change, Staying what every run keeps.
pub mod Chains
pub mod Staying
mod Examples
use grade15_1linux.Common.{
  ℕ, ◌+◌, ◌≡◌, ◌≢◌, Bool, false, if◌then◌else◌, Option, none, some, List, [], ◌∷◌,
}
use grade15_1linux.TaskList.{Task, Node, Walker, System, advance, place, add_tail}

-- The task at `r` goes: the node `q`, of the task `d`, points to what is behind it.
abbrev pub pass_over : ℕ → Task → ℕ → (ℕ → Option Node) → ℕ → Option Node
pass_over q d m nodes = place nodes q (record { task = d; next = m })

module _ {F K : Type 0} (spin_lock_irqsave : K → F × K) (spin_unlock_irqrestore : F → K → K)
    (head : ℕ) (stays : Task → Bool) where
  -- The states after `n` steps of the module, while the kernel has added `f` tasks and others have gone,
  -- but none for which `stays` holds. A new task is not one of them either.
  pub data Busy (s : System F K) : ℕ → ℕ → System F K → Type 0 where
    begin : Busy s 0 0 s
    own_step :
        {n f : ℕ} {t : System F K} {w : Walker F K}
        → Busy s n f t
        → advance spin_lock_irqsave spin_unlock_irqrestore head t.walker.point t.nodes t.walker
          ≡ some w
        → Busy s (n + 1) f (record { nodes = t.nodes; walker = w })
    joins :
        {n f q a : ℕ} {last : Task} {t : System F K} (new : Task)
        → Busy s n f t
        → stays new ≡ false
        → t.nodes q ≡ some (record { task = last; next = head })
        → t.nodes a ≡ none
        → Busy s n
            (f + 1)
            (record { nodes = add_tail head q last a new t.nodes; walker = t.walker })
    leaves :
        {n f q r m : ℕ} {d e : Task} {t : System F K}
        → Busy s n f t
        → stays e ≡ false
        → r ≢ head
        → t.nodes q ≡ some (record { task = d; next = r })
        → t.nodes r ≡ some (record { task = e; next = m })
        → Busy s n f (record { nodes = pass_over q d m t.nodes; walker = t.walker })
