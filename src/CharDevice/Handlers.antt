-- ===== src/CharDevice/Handlers.antt =====
-- exp4/exp4_1_kernel.c: the handlers of the device, which print and do nothing else.
use Prim.Native.String.{String}
use grade15_1linux.Common.{ℕ, List, [], ◌∷◌, ◌++◌, Bytes, ℤ, pos}

-- The lines that the handlers print.
pub data Line : Type 0 where
  major minor : ℕ → Line
  enter : String → Line

-- MAJOR and MINOR are the kernel's, over the device number of the inode.
unfoldable pub my_open : (ℕ → ℕ) → (ℕ → ℕ) → ℕ → List Line → ℤ × List Line
my_open major_of minor_of i_rdev log =
    (pos 0, log ++ major (major_of i_rdev) ∷ minor (minor_of i_rdev) ∷ [])

-- The user's buffer, `lbuf` and `*p` are left alone.
unfoldable pub my_read : Bytes → ℕ → ℕ → List Line → (ℤ × Bytes × ℕ) × List Line
my_read buf lbuf p log = ((pos 0, buf, p), log ++ enter "my_read" ∷ [])

unfoldable pub my_write : Bytes → ℕ → ℕ → List Line → (ℤ × ℕ) × List Line
my_write buf count p log = ((pos 0, p), log ++ enter "my_write" ∷ [])
