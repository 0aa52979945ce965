-- ===== src/Join/Lines.antt =====
-- exp1/exp1.3.c: the lines of each of the two threads.
use grade15_1linux.Common.{
  ℕ, zero, suc, ◌+◌, ◌≡◌, ◌∙◌, refl, ap, sym, arith, List, [], ◌∷◌, ◌++◌, append_assoc,
}
use grade15_1linux.Join.{
  Line, thread_done, main_waiting, thread_line, main_line, Worker, absent, exiting, exited, looping,
}

-- The line alone, if it is one of the thread.
abbrev own_line : Line → List Line
own_line (thread_line n) = thread_line n ∷ []
own_line thread_done = thread_done ∷ []
own_line _ = []

-- The line alone, if it is one of `main`.
abbrev main_own : Line → List Line
main_own (thread_line n) = []
main_own thread_done = []
main_own l = l ∷ []

-- What the thread has printed of an output.
abbrev pub of_thread : List Line → List Line
of_thread [] = []
of_thread (l ∷ ls) = own_line l ++ of_thread ls

-- What `main` has printed of it.
abbrev pub of_main : List Line → List Line
of_main [] = []
of_main (l ∷ ls) = main_own l ++ of_main ls

-- The lines with the numbers below `n`, in order.
abbrev pub up_to : (ℕ → Line) → ℕ → List Line
up_to f zero = []
up_to f (suc n) = up_to f n ++ f n ∷ []

abbrev pub thread_lines : List Line
thread_lines = up_to thread_line 10 ++ thread_done ∷ []

abbrev pub main_lines : List Line
main_lines = up_to main_line 5 ++ main_waiting ∷ []

-- What the thread has printed where it is.
abbrev pub printed : Worker → List Line
printed absent = []
printed (looping n) = up_to thread_line n
printed exiting = thread_lines
printed exited = thread_lines

pub of_thread-append : (xs ys : List Line) → of_thread (xs ++ ys) ≡ of_thread xs ++ of_thread ys
of_thread-append [] ys = refl
of_thread-append (l ∷ xs) ys =
    ap (λ ls. own_line l ++ ls) (of_thread-append xs ys)
    ∙ sym (append_assoc (own_line l) (of_thread xs) (of_thread ys))

pub of_main-append : (xs ys : List Line) → of_main (xs ++ ys) ≡ of_main xs ++ of_main ys
of_main-append [] ys = refl
of_main-append (l ∷ xs) ys =
    ap (λ ls. main_own l ++ ls) (of_main-append xs ys)
    ∙ sym (append_assoc (main_own l) (of_main xs) (of_main ys))

pub up_to_next : (f : ℕ → Line) (n : ℕ) → up_to f n ++ f n ∷ [] ≡ up_to f (n + 1)
up_to_next f n = let next : suc n ≡ n + 1 = omega arith in ap (up_to f) next

-- An output with new lines behind it.
pub thread_grown :
    (out : List Line) {before : List Line} (ls : List Line)
    → of_thread out ≡ before
    → of_thread (out ++ ls) ≡ before ++ of_thread ls
thread_grown out ls e = of_thread-append out ls ∙ ap (λ xs. xs ++ of_thread ls) e

pub main_grown :
    (out : List Line) {before : List Line} (ls : List Line)
    → of_main out ≡ before
    → of_main (out ++ ls) ≡ before ++ of_main ls
main_grown out ls e = of_main-append out ls ∙ ap (λ xs. xs ++ of_main ls) e
