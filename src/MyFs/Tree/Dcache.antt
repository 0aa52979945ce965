-- ===== src/MyFs/Tree/Dcache.antt =====
-- What course_design/myfs_kernel.c relies on of the kernel's lookups and of its allocation of inodes
-- when it builds its tree: their documented behaviour, as a record of laws.
use Prim.Native.String.{String}
use grade15_1linux.Common.{ℕ, ◌+◌, ◌≤◌, ◌≡◌, Bool, false, ◌||◌, some, ◌==◌}
use grade15_1linux.MyFs.{World, Vfs, found}

-- `child` is the directory entry of a name in a directory, negative (without an inode) while there is
-- no such file; `used` tells the inodes that the kernel has given out.
pub record DcacheLaws {K : Type 0} (v : Vfs K) : Type 0 where
  pub child : ℕ → String → ℕ
  pub used : K → ℕ → Bool
  -- Different directories or names have different entries.
  pub child_parent : (p q : ℕ) (s t : String) → child p s ≡ child q t → p ≡ q
  pub child_name : (p q : ℕ) (s t : String) → child p s ≡ child q t → s ≡ t
  -- A lookup finds the entry of the name and takes a reference to it. It gives no entry an inode, and
  -- gives back no reference.
  pub lookup_found :
      (s : String) (p : ℕ) (w : World K) → (v.lookup_one_len s p w).0 ≡ found (child p s)
  pub lookup_inode :
      (s : String) (p d : ℕ) (w : World K)
      → ((v.lookup_one_len s p w).1.dentries d).d_inode ≡ (w.dentries d).d_inode
  pub lookup_reference :
      (s : String) (p : ℕ) (w : World K)
      → ((v.lookup_one_len s p w).1.dentries (child p s)).d_count
        ≡ (w.dentries (child p s)).d_count + 1
  pub lookup_holds :
      (s : String) (p d : ℕ) (w : World K)
      → (w.dentries d).d_count ≤ ((v.lookup_one_len s p w).1.dentries d).d_count
  -- A new inode was not in use, and is the only one that comes into use.
  pub new_unused :
      (sb i : ℕ) (w : World K) → (v.new_inode sb w).0 ≡ some i → used w.kernel i ≡ false
  pub new_used :
      (sb i j : ℕ) (w : World K)
      → (v.new_inode sb w).0 ≡ some i
      → used (v.new_inode sb w).1.kernel j ≡ (j == i || used w.kernel j)
  pub lookup_used :
      (s : String) (p j : ℕ) (w : World K)
      → used (v.lookup_one_len s p w).1.kernel j ≡ used w.kernel j
  pub lock_used : (i j : ℕ) (w : World K) → used (v.inode_lock i w).kernel j ≡ used w.kernel j
  pub unlock_used : (i j : ℕ) (w : World K) → used (v.inode_unlock i w).kernel j ≡ used w.kernel j
  pub link_used : (i j : ℕ) (w : World K) → used (v.inc_nlink i w).kernel j ≡ used w.kernel j
  pub instantiate_used :
      (d i j : ℕ) (w : World K) → used (v.d_instantiate d i w).kernel j ≡ used w.kernel j
  pub dget_used : (d j : ℕ) (w : World K) → used (v.dget d w).kernel j ≡ used w.kernel j

-- There is memory for every inode.
abbrev pub HasMemory : {K : Type 0} → Vfs K → Type 0
HasMemory {K} v = (sb : ℕ) (w : World K) → (i : ℕ) × ((v.new_inode sb w).0 ≡ some i)
