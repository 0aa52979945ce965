-- ===== src/Processes.antt =====
-- exp1/exp1.1.c, exp1/exp1.2.1.c, exp1/exp1.2.2.c, exp2/exp2.1.1.c and exp2/exp2.1.2.c: programs that fork, that
-- execute another program, and that are executed. Output is what they print.
pub mod Output
use grade15_1linux.Common.{
  ℕ, zero, suc, Bool, true, false, if◌then◌else◌, Option, none, some, ℤ, pos, negsuc, List, [], ◌∷◌,
  ◌++◌,
}

-- The lines of the five programs, with the numbers that they print.
pub data Line : Type 0 where
  i_am_child : ℕ → Line
  i_am_parent : ℕ → ℤ → Line
  child_calling i_am_1_2_2 calling_2_1_2 i_am_2_1_2 : Line
  my_child_is : ℤ → Line

-- The standard output of a process: a terminal gets each line at once, a file or a pipe what has
-- been printed when the process exits.
pub record Stdio : Type 0 where
  pub terminal : Bool
  pub buffer : List Line
  pub output : List Line

abbrev pub fresh : Bool → Stdio
fresh terminal = record { terminal = terminal; buffer = []; output = [] }

abbrev pub printf : Line → Stdio → Stdio
printf l s =
    if s.terminal
    then record s { output = s.output ++ l ∷ [] }
    else record s { buffer = s.buffer ++ l ∷ [] }

-- The end of a process, which writes out its buffer.
abbrev pub exit : Stdio → List Line
exit s = s.output ++ s.buffer

-- `execlp` of a program whose `main` is given, or that cannot be executed: then the call returns. A new
-- program begins with an empty buffer.
abbrev pub execlp : Option (Stdio → List Line) → Stdio → List Line
execlp none s = exit s
execlp (some program) s = program (record s { buffer = [] })

-- `fork` gives 0 in the child and its process id, or -1, in the parent.
abbrev pub child_value : ℤ
child_value = pos 0

abbrev pub parent_value : Option ℕ → ℤ
parent_value none = negsuc 0
parent_value (some pid) = pos pid

abbrev pub is_child : ℤ → Bool
is_child (pos zero) = true
is_child (pos (suc n)) = false
is_child (negsuc n) = false

-- exp1.1, behind the `fork`: `pid` is the process's own.
unfoldable pub main_1_1 : ℤ → ℕ → Stdio → List Line
main_1_1 p1 pid s =
    exit (if is_child p1 then printf (i_am_child pid) s else printf (i_am_parent pid p1) s)

unfoldable pub main_1_2_2 : Stdio → List Line
main_1_2_2 s = exit (printf i_am_1_2_2 s)

-- exp1.2.1, behind the `fork`.
unfoldable pub main_1_2_1 : Option (Stdio → List Line) → ℤ → Stdio → List Line
main_1_2_1 program p1 s =
    if is_child p1
    then execlp program (printf child_calling s)
    else exit (printf (my_child_is p1) s)

unfoldable pub main_2_1_2 : Stdio → List Line
main_2_1_2 s = exit (printf i_am_2_1_2 s)

unfoldable pub main_2_1_1 : Option (Stdio → List Line) → Stdio → List Line
main_2_1_1 program s = execlp program (printf calling_2_1_2 s)
