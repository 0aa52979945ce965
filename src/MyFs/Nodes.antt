-- ===== src/MyFs/Nodes.antt =====
-- course_design/myfs_kernel.c: `myfs_get_inode`, `myfs_mknod`, `myfs_mkdir` and `myfs_creat`.
pub mod Mode
pub mod Laws
pub mod Create
use Prim.Native.Nat.{bit_and, bit_or}
use grade15_1linux.Common.{
  ℕ, ◌+◌, ◌%◌, ◌^◌, ◌≡◌, Bool, true, false, Option, none, some, ℤ, pos, eperm, is_nonzero, ◌==◌,
  if◌then◌else◌,
}
use grade15_1linux.MyFs.{
  OpsTable, simple_dir_inode_operations, simple_dir_operations, Inode, Dentry, World, Vfs, update,
}

abbrev pub vmacache_size : ℕ
vmacache_size = 4096

-- The file types and the mask over them.
abbrev pub s_ifmt : ℕ
s_ifmt = 0o170000

abbrev pub s_ifreg : ℕ
s_ifreg = 0o100000

abbrev pub s_ifdir : ℕ
s_ifdir = 0o040000

-- What `myfs_get_inode` writes into every new inode. `i_mode` has 16 bits.
abbrev pub filled : ℕ → ℕ → ℕ → ℕ → Inode → Inode
filled mode uid gid now node = record node {
  i_mode = mode % 2 ^ 16;
  i_uid = uid;
  i_gid = gid;
  i_size = vmacache_size;
  i_blocks = 0;
  i_atime = now;
  i_mtime = now;
  i_ctime = now;
}

abbrev pub as_dir : Inode → Inode
as_dir node = record node { i_op = simple_dir_inode_operations; i_fop = simple_dir_operations }

abbrev pub set_inode : {K : Type 0} → ℕ → Inode → World K → World K
set_inode i node w = record w { inodes = update w.inodes i node }

module _ {K : Type 0} (v : Vfs K) where
  -- The `switch` over the file type.
  unfoldable pub init_by_type : ℕ → ℕ → ℕ → World K → World K
  init_by_type i mode dev w =
      if bit_and mode s_ifmt == s_ifreg
      then w
      else if bit_and mode s_ifmt == s_ifdir
      then v.inc_nlink i (set_inode i (as_dir (w.inodes i)) w)
      else v.init_special_inode i mode dev w

  unfoldable pub fill_inode : ℕ → ℕ → World K → World K
  fill_inode i mode w =
      set_inode i
        (filled mode (v.current_fsuid w) (v.current_fsgid w) (v.current_time i w) (w.inodes i)) w

  pub myfs_get_inode : ℕ → ℕ → ℕ → World K → Option ℕ × World K
  myfs_get_inode sb mode dev w =
      let (inode, w1) = v.new_inode sb w in
      elim inode [
        | none ↦ (none, w1)
        | some i ↦ (some i, init_by_type i mode dev (fill_inode i mode w1))
      ]

  -- `dir` is the address of the directory's inode.
  pub myfs_mknod : ℕ → ℕ → ℕ → ℕ → World K → ℤ × World K
  myfs_mknod dir dentry mode dev w = elim (w.dentries dentry).d_inode [
    | some _ ↦ (eperm, w)
    | none ↦
        let (inode, w1) = myfs_get_inode (w.inodes dir).i_sb mode dev w in
        elim inode [
          | none ↦ (eperm, w1)
          | some i ↦ (pos 0, v.dget dentry (v.d_instantiate dentry i w1))
        ]
  ]

  unfoldable pub myfs_mkdir : ℕ → ℕ → ℕ → World K → ℤ × World K
  myfs_mkdir dir dentry mode w =
      let (res, w1) = myfs_mknod dir dentry (bit_or mode s_ifdir) 0 w in
      if is_nonzero res then (res, w1) else (res, v.inc_nlink dir w1)

  unfoldable pub myfs_creat : ℕ → ℕ → ℕ → World K → ℤ × World K
  myfs_creat dir dentry mode w = myfs_mknod dir dentry (bit_or mode s_ifreg) 0 w
