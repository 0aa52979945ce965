-- ===== src/Join.antt =====
-- exp1/exp1.3.c: a thread that prints ten numbers and `main`, which creates it, prints five, waits for
-- it and then says that it has finished. Lines are the two sequences of lines, Order what every
-- interleaving keeps of them, and Ending how the interleavings end.
pub mod Lines
pub mod Order
pub mod Ending
mod Examples
use grade15_1linux.Common.{
  ℕ, suc, ◌+◌, ◌≡◌, Bool, true, false, Option, none, some, ℤ, pos, is_nonzero, if◌then◌else◌, ltb,
  List, [], ◌∷◌, ◌++◌,
}

pub data Line : Type 0 where
  error_creating thread_done main_waiting main_finished : Line
  thread_line main_line : ℕ → Line

-- Where the thread is: not created, before the test of its loop, before `pthread_exit`, and behind it.
pub data Worker : Type 0 where
  absent exiting exited : Worker
  looping : ℕ → Worker

-- Where `main` is: before `pthread_create`, before the test of its loop, before `pthread_join`, before
-- its last `printf`, and behind its return.
pub data Main : Type 0 where
  creating joining finishing : Main
  counting : ℕ → Main
  returned : ℤ → Main

-- The next step of the thread, and what it prints.
unfoldable pub thread_function : Worker → Option (Worker × List Line)
thread_function absent = none
thread_function (looping timer) =
    if ltb timer 10
    then some (looping (timer + 1), thread_line timer ∷ [])
    else some (exiting, thread_done ∷ [])
thread_function exiting = some (exited, [])
thread_function exited = none

-- `pthread_join` waits until the thread has exited.
unfoldable pub join : Worker → Option (Main × Worker × List Line)
join exited = some (finishing, exited, [])
join _ = none

-- The next step of `main`, if `pthread_create` returns `code`.
unfoldable pub main_step : ℤ → Main → Worker → Option (Main × Worker × List Line)
unfolding join
main_step code creating thread =
    if is_nonzero code
    then some (returned (pos 1), thread, error_creating ∷ [])
    else some (counting 0, looping 0, [])
main_step code (counting timer) thread =
    if ltb timer 5
    then some (counting (timer + 1), thread, main_line timer ∷ [])
    else some (joining, thread, main_waiting ∷ [])
main_step code joining thread = join thread
main_step code finishing thread = some (returned (pos 0), thread, main_finished ∷ [])
main_step code (returned value) thread = none

-- The two threads and the output of both.
pub record System : Type 0 where
  pub main : Main
  pub thread : Worker
  pub output : List Line

abbrev pub begin : System
begin = record { main = creating; thread = absent; output = [] }

-- The states after `n` steps, in any order.
pub data Run (code : ℤ) : ℕ → System → Type 0 where
  start : Run code 0 begin
  main_next :
      {n : ℕ} {s : System} {m : Main} {w : Worker} {ls : List Line}
      → Run code n s
      → main_step code s.main s.thread ≡ some (m, w, ls)
      → Run code (n + 1) (record { main = m; thread = w; output = s.output ++ ls })
  thread_next :
      {n : ℕ} {s : System} {w : Worker} {ls : List Line}
      → Run code n s
      → thread_function s.thread ≡ some (w, ls)
      → Run code (n + 1) (record { main = s.main; thread = w; output = s.output ++ ls })
