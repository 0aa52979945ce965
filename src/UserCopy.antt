-- ===== src/UserCopy.antt =====
-- The kernel's copies between its own memory and a user's, as the drivers of exp3/exp3.1.c and
-- exp4/exp_4_2.c call them. They are not code of the repository: the functions are fields of a
-- record, and what the drivers rely on is a record of laws.
pub mod Plain
use grade15_1linux.Common.{ℕ, ◌+◌, ◌≤◌, ◌≡◌, Bytes, length, get_elem?, take, drop, ◌++◌}

-- Each copy takes the destination, the source and a count, and gives the new destination with the
-- number of bytes that could not be copied.
pub record UserCopy : Type 0 where
  pub copy_from_user : Bytes → Bytes → ℕ → Bytes × ℕ
  pub copy_to_user : Bytes → Bytes → ℕ → Bytes × ℕ

-- The documented behaviour of one copy: it keeps the size of the destination and what lies behind
-- the count, and if no byte is left over it has copied all of them.
pub record CopyLaws (copy : Bytes → Bytes → ℕ → Bytes × ℕ) : Type 0 where
  pub size : (dst src : Bytes) (n : ℕ) → length (copy dst src n).0 ≡ length dst
  pub beyond :
      (dst src : Bytes) (n i : ℕ) → n ≤ i → get_elem? (copy dst src n).0 i ≡ get_elem? dst i
  pub copied :
      (dst src : Bytes) (n : ℕ)
      → n ≤ length dst
      → n ≤ length src
      → (copy dst src n).1 ≡ 0
      → (copy dst src n).0 ≡ take n src ++ drop n dst
