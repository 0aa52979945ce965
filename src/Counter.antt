-- ===== src/Counter.antt =====
-- exp1/exp1.4.c and exp3/exp3.2.c: two threads that count a shared variable up behind a semaphore,
-- each until it finds its own limit reached: 5 and 5 in the first program, 100 and 5 in the second.
-- Threads is what every interleaving of them keeps, Ending how the interleavings end.
pub mod Threads
pub mod Ending
mod Examples
use grade15_1linux.Common.{
  ℕ, ◌+◌, ◌-◌, ◌≡◌, ◌==◌, if◌then◌else◌, leb, Option, none, some, List, [], ◌∷◌,
}

-- Where a thread is: before `sem_wait`, before the test, before the load of `sharedData` in
-- `sharedData++`, before its store with the number loaded, before `sem_post`, before the
-- `sem_post` of its last round, and behind `pthread_exit`.
pub data Point : Type 0 where
  waiting testing loading posting leaving exited : Point
  storing : ℕ → Point

-- The next step of a thread with a limit: where it is then, the semaphore and `sharedData`. A wait at
-- 0 blocks.
unfoldable pub advance : ℕ → Point → ℕ → ℕ → Option (Point × ℕ × ℕ)
advance limit waiting semaphore shared =
    if semaphore == 0 then none else some (testing, semaphore - 1, shared)
advance limit testing semaphore shared =
    if leb limit shared
    then some (leaving, semaphore, shared)
    else some (loading, semaphore, shared)
advance limit loading semaphore shared = some (storing shared, semaphore, shared)
advance limit (storing n) semaphore shared = some (posting, semaphore, n + 1)
advance limit posting semaphore shared = some (waiting, semaphore + 1, shared)
advance limit leaving semaphore shared = some (exited, semaphore + 1, shared)
advance limit exited semaphore shared = none

pub record System : Type 0 where
  pub semaphore : ℕ
  pub shared_data : ℕ
  pub thread1 : Point
  pub thread2 : Point

-- What `main` sets up before it joins the threads.
abbrev pub main : System
main = record { semaphore = 1; shared_data = 0; thread1 = waiting; thread2 = waiting }

-- One step of one of the threads.
pub data Step (limit1 limit2 : ℕ) (s : System) : System → Type 0 where
  step1 :
      {p : Point} {m d : ℕ}
      → advance limit1 s.thread1 s.semaphore s.shared_data ≡ some (p, m, d)
      → Step limit1 limit2 s
          (record { semaphore = m; shared_data = d; thread1 = p; thread2 = s.thread2 })
  step2 :
      {p : Point} {m d : ℕ}
      → advance limit2 s.thread2 s.semaphore s.shared_data ≡ some (p, m, d)
      → Step limit1 limit2 s
          (record { semaphore = m; shared_data = d; thread1 = s.thread1; thread2 = p })

-- The states after `n` steps of the two threads, in any order.
pub data Run (limit1 limit2 : ℕ) : ℕ → System → Type 0 where
  start : Run limit1 limit2 0 main
  next :
      {n : ℕ} {s t : System}
      → Run limit1 limit2 n s
      → Step limit1 limit2 s t
      → Run limit1 limit2 (1 + n) t
