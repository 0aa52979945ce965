-- ===== src/MyFs/Nodes/Laws.antt =====
-- What course_design/myfs_kernel.c relies on of the kernel's functions over inodes and directory
-- entries: their documented behaviour, as a record of laws.
use Prim.Native.String.{String}
use grade15_1linux.Common.{ℕ, ◌+◌, ◌≡◌, ◌≢◌, true, false, some}
use grade15_1linux.MyFs.{Inode, World, Vfs, update}

abbrev pub linked : ℕ → Inode → Inode
linked n node = record node { i_nlink = n }

pub record VfsLaws {K : Type 0} (v : Vfs K) : Type 0 where
  -- A new inode has one link; the others stay as they are.
  pub new_nlink :
      (sb i : ℕ) (w : World K)
      → (v.new_inode sb w).0 ≡ some i
      → ((v.new_inode sb w).1.inodes i).i_nlink ≡ 1
  pub new_inodes :
      (sb j : ℕ) (w : World K)
      → (v.new_inode sb w).0 ≢ some j
      → (v.new_inode sb w).1.inodes j ≡ w.inodes j
  pub new_dentries : (sb : ℕ) (w : World K) → (v.new_inode sb w).1.dentries ≡ w.dentries
  pub new_locked : (sb : ℕ) (w : World K) → (v.new_inode sb w).1.locked ≡ w.locked
  -- One more link.
  pub link_inodes :
      (i : ℕ) (w : World K)
      → (v.inc_nlink i w).inodes
        ≡ update w.inodes i (linked ((w.inodes i).i_nlink + 1) (w.inodes i))
  pub link_dentries : (i : ℕ) (w : World K) → (v.inc_nlink i w).dentries ≡ w.dentries
  pub link_locked : (i : ℕ) (w : World K) → (v.inc_nlink i w).locked ≡ w.locked
  -- A special inode is set up in place, with its links as they were.
  pub special_nlink :
      (i mode dev : ℕ) (w : World K)
      → ((v.init_special_inode i mode dev w).inodes i).i_nlink ≡ (w.inodes i).i_nlink
  pub special_inodes :
      (i mode dev j : ℕ) (w : World K)
      → i ≢ j
      → (v.init_special_inode i mode dev w).inodes j ≡ w.inodes j
  pub special_dentries :
      (i mode dev : ℕ) (w : World K) → (v.init_special_inode i mode dev w).dentries ≡ w.dentries
  pub special_locked :
      (i mode dev : ℕ) (w : World K) → (v.init_special_inode i mode dev w).locked ≡ w.locked
  -- `d_instantiate` gives the entry its inode, `dget` a reference.
  pub instantiate_dentries :
      (d i : ℕ) (w : World K)
      → (v.d_instantiate d i w).dentries
        ≡ update w.dentries d (record { d_inode = some i; d_count = (w.dentries d).d_count })
  pub instantiate_inodes : (d i : ℕ) (w : World K) → (v.d_instantiate d i w).inodes ≡ w.inodes
  pub instantiate_locked : (d i : ℕ) (w : World K) → (v.d_instantiate d i w).locked ≡ w.locked
  pub dget_dentries :
      (d : ℕ) (w : World K)
      → (v.dget d w).dentries
        ≡ update w.dentries d
            (record { d_inode = (w.dentries d).d_inode; d_count = (w.dentries d).d_count + 1 })
  pub dget_inodes : (d : ℕ) (w : World K) → (v.dget d w).inodes ≡ w.inodes
  pub dget_locked : (d : ℕ) (w : World K) → (v.dget d w).locked ≡ w.locked
  -- The lock of an inode.
  pub lock_locked : (i : ℕ) (w : World K) → (v.inode_lock i w).locked ≡ update w.locked i true
  pub lock_inodes : (i : ℕ) (w : World K) → (v.inode_lock i w).inodes ≡ w.inodes
  pub lock_dentries : (i : ℕ) (w : World K) → (v.inode_lock i w).dentries ≡ w.dentries
  pub unlock_locked : (i : ℕ) (w : World K) → (v.inode_unlock i w).locked ≡ update w.locked i false
  pub unlock_inodes : (i : ℕ) (w : World K) → (v.inode_unlock i w).inodes ≡ w.inodes
  pub unlock_dentries : (i : ℕ) (w : World K) → (v.inode_unlock i w).dentries ≡ w.dentries
  -- A lookup changes no inode and no entry that has one.
  pub lookup_inodes :
      (s : String) (p : ℕ) (w : World K) → (v.lookup_one_len s p w).1.inodes ≡ w.inodes
  pub lookup_locked :
      (s : String) (p : ℕ) (w : World K) → (v.lookup_one_len s p w).1.locked ≡ w.locked
  pub lookup_positive :
      (s : String) (p d i : ℕ) (w : World K)
      → (w.dentries d).d_inode ≡ some i
      → ((v.lookup_one_len s p w).1.dentries d).d_inode ≡ some i
