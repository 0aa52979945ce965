-- ===== src/MyFs.antt =====
-- course_design/myfs_kernel.c: the structures of the kernel that the file system works on, and the
-- kernel's functions that it calls, which are not code of the repository. The children model its
-- functions: Nodes (inodes and directory entries), Tree (files by name, load and unload), File (the
-- operations of an open file), Fifo (the buffer behind all of them) and Clients (programs that use it).
pub mod Nodes
pub mod Tree
pub mod File
pub mod Clients
pub mod Fifo
mod Examples
use Prim.Native.String.{String}
use grade15_1linux.Common.{
  ℕ, ◌+◌, ◌≡◌, ◌≢◌, Bool, true, false, Option, none, some, ℤ, ◌==◌, if◌then◌else◌, List,
}

-- The tables of operations that an inode may point to.
pub data OpsTable : Type 0 where
  simple_dir_inode_operations simple_dir_operations myfs_file_operations : OpsTable
  other_operations : ℕ → OpsTable

-- The fields of `struct inode` that the code reads or writes. `i_private` and `i_sb` are addresses.
pub record Inode : Type 0 where
  pub i_mode : ℕ
  pub i_uid : ℕ
  pub i_gid : ℕ
  pub i_size : ℕ
  pub i_blocks : ℕ
  pub i_atime : ℕ
  pub i_mtime : ℕ
  pub i_ctime : ℕ
  pub i_nlink : ℕ
  pub i_sb : ℕ
  pub i_private : ℕ
  pub i_op : OpsTable
  pub i_fop : OpsTable

-- `struct dentry`: its inode, if it has one, and its reference count.
pub record Dentry : Type 0 where
  pub d_inode : Option ℕ
  pub d_count : ℕ

-- The kernel's memory: inodes and directory entries by address, the inodes whose lock is held, and
-- what the kernel keeps for itself.
pub record World (K : Type 0) : Type 0 where
  pub inodes : ℕ → Inode
  pub dentries : ℕ → Dentry
  pub locked : ℕ → Bool
  pub kernel : K

abbrev pub update {ℓ} : {A : Type ℓ} → (ℕ → A) → ℕ → A → ℕ → A
update f i a j = if i == j then a else f j

-- A pointer to a directory entry as the kernel's functions return it.
pub data Slot : Type 0 where
  null : Slot
  found : ℕ → Slot
  err_ptr : ℤ → Slot

-- The mount of the file system: the root's directory entry, if there is a super block with one.
pub record Mount : Type 0 where
  pub s_root : Option ℕ

-- The variable `myfs_mount`.
pub data MountPtr : Type 0 where
  no_mount : MountPtr
  mounted : Mount → MountPtr
  mount_error : ℤ → MountPtr

-- `struct tree_descr`, an entry of a table of files.
pub record TreeDescr : Type 0 where
  pub name : String
  pub ops : Option OpsTable
  pub mode : ℕ

-- A function that fills a super block, from its address, the data of the mount and whether to be silent.
abbrev pub FillSuper : Type 0 → Type 0
FillSuper K = ℕ → Option ℕ → Bool → World K → ℤ × World K

-- What ends a file system when its super block goes.
pub data KillSb : Type 0 where
  kill_litter_super : KillSb

-- `struct file_system_type`: a mount gets the name of the type, flags, the name of the device and data.
pub record FileSystemType (K : Type 0) : Type 0 where
  pub name : String
  pub mount : String → ℕ → String → Option ℕ → World K → Slot × World K
  pub kill_sb : KillSb

-- The kernel's functions.
pub record Vfs (K : Type 0) : Type 0 where
  pub new_inode : ℕ → World K → Option ℕ × World K
  pub current_fsuid : World K → ℕ
  pub current_fsgid : World K → ℕ
  pub current_time : ℕ → World K → ℕ
  pub init_special_inode : ℕ → ℕ → ℕ → World K → World K
  pub inc_nlink : ℕ → World K → World K
  pub d_instantiate : ℕ → ℕ → World K → World K
  pub dget : ℕ → World K → World K
  pub inode_lock : ℕ → World K → World K
  pub inode_unlock : ℕ → World K → World K
  pub lookup_one_len : String → ℕ → World K → Slot × World K
  pub register_filesystem : World K → ℤ × World K
  pub unregister_filesystem : World K → World K
  pub simple_fill_super : ℕ → ℕ → List TreeDescr → World K → ℤ × World K
  pub mount_single : String → ℕ → Option ℕ → FillSuper K → World K → Slot × World K
  pub kern_mount : FileSystemType K → World K → MountPtr × World K
  pub simple_release_fs : MountPtr → ℤ → World K → Option ((MountPtr × ℤ) × World K)
