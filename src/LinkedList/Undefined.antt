-- ===== src/LinkedList/Undefined.antt =====
-- exp2/exp2.3.cpp: the first word that the program stores, where the assignment to a string that was never
-- constructed is an error.
use Prim.Native.String.{String}
use text.Mathlib.Text.{◌==◌ as str_eq}
use grade15_1linux.Common.{◌==◌}
