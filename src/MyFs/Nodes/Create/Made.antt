-- ===== src/MyFs/Nodes/Create/Made.antt =====
-- course_design/myfs_kernel.c: what `myfs_mkdir` and `myfs_creat` make.
use Prim.Native.Nat.{bit_and, bit_or}
use grade15_1linux.Common.{
  ℕ, ◌+◌, ◌%◌, ◌^◌, ◌<◌, ◌≡◌, ◌≢◌, ◌⊎◌, ◌∙◌, refl, ap, none, some, arith, pos,
}
use grade15_1linux.MyFs.{simple_dir_inode_operations, simple_dir_operations, World, Vfs, update}
use grade15_1linux.MyFs.Nodes.{s_ifmt, s_ifreg, s_ifdir, vmacache_size, myfs_mkdir, myfs_creat}
use grade15_1linux.MyFs.Nodes.Laws.{VfsLaws, linked}
use grade15_1linux.MyFs.Nodes.Mode.{dir_type_iff, reg_type_iff}
use grade15_1linux.MyFs.Nodes.Create.{
  Only, made_world, made_world-Only, dir_node, reg_node, linked_world, linked_inodes,
  linked_dentries,
}
use grade15_1linux.MyFs.Nodes.Create.Outcome.{myfs_mknod-made}

module _ {K : Type 0} (v : Vfs K) (laws : VfsLaws v) where
  -- A mode without a type, or with a directory's.
  abbrev IsDirMode : ℕ → Type 0
  IsDirMode mode = (mode < 2 ^ 16) × ((bit_and mode s_ifmt ≡ 0) ⊎ (bit_and mode s_ifmt ≡ s_ifdir))

  -- The memory behind a new directory, whose parent has one link more.
  module _ (dir dentry i : ℕ) (w w1 : World K) (only : Only i w w1) (ne : i ≢ dir) where
    dir_world : World K
    dir_world = v.inc_nlink dir (linked_world v laws dentry i w1)

    dir_world-inodes :
        (j : ℕ)
        → dir_world.inodes j
          ≡ update w1.inodes dir (linked ((w1.inodes dir).i_nlink + 1) (w1.inodes dir)) j
    unfolding dir_world
    dir_world-inodes j =
        rw
          (laws.link_inodes dir (linked_world v laws dentry i w1), linked_inodes v laws dentry i w1)

    dir_world-parent : (dir_world.inodes dir).i_nlink ≡ (w.inodes dir).i_nlink + 1
    dir_world-parent = ground (arith, dir_world-inodes dir, only.others dir ne)

    dir_world-node : dir_world.inodes i ≡ w1.inodes i
    dir_world-node = ground (arith, dir_world-inodes i)

    dir_world-entry : (dir_world.dentries dentry).d_inode ≡ some i
    unfolding dir_world
    dir_world-entry =
        rw
          (
            laws.link_dentries dir (linked_world v laws dentry i w1),
            linked_dentries v laws dentry i w1,
          )
          (ground arith)

    dir_world-others : (j : ℕ) → i ≢ j → dir ≢ j → dir_world.inodes j ≡ w.inodes j
    dir_world-others j ni nd = ground (arith, dir_world-inodes j, only.others j ni)

  pub myfs_mkdir-made :
      (dir dentry mode i : ℕ) (w : World K)
      → (w.dentries dentry).d_inode ≡ none
      → (v.new_inode (w.inodes dir).i_sb w).0 ≡ some i
      → myfs_mkdir v dir dentry mode w ≡ (
        pos 0,
        v.inc_nlink dir (
            linked_world v laws dentry i
              (made_world v laws (w.inodes dir).i_sb (bit_or mode s_ifdir) 0 i w)),
      )
  unfolding myfs_mkdir
  myfs_mkdir-made dir dentry mode i w e n =
      simp (myfs_mknod-made v laws dir dentry (bit_or mode s_ifdir) 0 i w e n, myfs_mkdir)

  -- `myfs_mkdir` in the inode `dir`, on an entry without an inode, when there is memory for an inode
  -- other than `dir` and the mode has no other type than a directory's: it returns 0; the new inode
  -- has a directory's operations and two links, and stands behind the entry; the parent has one link
  -- more; no other inode changes.
  pub myfs_mkdir_made :
      (dir dentry mode i : ℕ) (w : World K)
      → (w.dentries dentry).d_inode ≡ none
      → (v.new_inode (w.inodes dir).i_sb w).0 ≡ some i
      → i ≢ dir
      → IsDirMode mode
      → let (res, w') = myfs_mkdir v dir dentry mode w in
        (res ≡ pos 0)
        × ((w'.inodes dir).i_nlink ≡ (w.inodes dir).i_nlink + 1)
        × ((w'.inodes i).i_nlink ≡ 2)
        × ((w'.inodes i).i_op ≡ simple_dir_inode_operations)
        × ((w'.inodes i).i_fop ≡ simple_dir_operations)
        × ((w'.dentries dentry).d_inode ≡ some i)
        × ((j : ℕ) → i ≢ j → dir ≢ j → w'.inodes j ≡ w.inodes j)
  unfolding dir_world
  myfs_mkdir_made dir dentry mode i w e n ne is_dir =
      let sb = (w.inodes dir).i_sb in
      let mode' = bit_or mode s_ifdir in
      let w1 = made_world v laws sb mode' 0 i w in
      let only = made_world-Only v laws sb mode' 0 i w n in
      let same = dir_world-node dir dentry i w w1 only ne in
      let node = dir_node v laws sb mode' 0 i w n ((dir_type_iff mode is_dir.0).1 is_dir.1) in
      simp (myfs_mkdir-made dir dentry mode i w e n) (
        refl,
        dir_world-parent dir dentry i w w1 only ne,
        ap (λ a. a.i_nlink) same ∙ node.2,
        ap (λ a. a.i_op) same ∙ node.3,
        ap (λ a. a.i_fop) same ∙ node.4,
        dir_world-entry dir dentry i w w1 only ne,
        dir_world-others dir dentry i w w1 only ne,
      )

  -- A mode without a type, or with a regular file's.
  abbrev IsRegMode : ℕ → Type 0
  IsRegMode mode = (mode < 2 ^ 16) × ((bit_and mode s_ifmt ≡ 0) ⊎ (bit_and mode s_ifmt ≡ s_ifreg))

  -- `myfs_creat` on an entry without an inode, when there is memory and the mode has no other type
  -- than a regular file's: it returns 0, and the new inode, with the mode's permissions, the size of
  -- a page and one link, stands behind the entry; no other inode changes.
  pub myfs_creat_made :
      (dir dentry mode i : ℕ) (w : World K)
      → (w.dentries dentry).d_inode ≡ none
      → (v.new_inode (w.inodes dir).i_sb w).0 ≡ some i
      → IsRegMode mode
      → let (res, w') = myfs_creat v dir dentry mode w in
        (res ≡ pos 0)
        × ((w'.inodes i).i_mode ≡ bit_or mode s_ifreg % 2 ^ 16)
        × ((w'.inodes i).i_size ≡ vmacache_size)
        × ((w'.inodes i).i_nlink ≡ 1)
        × ((w'.dentries dentry).d_inode ≡ some i)
        × ((j : ℕ) → i ≢ j → w'.inodes j ≡ w.inodes j)
  unfolding myfs_creat
  myfs_creat_made dir dentry mode i w e n is_reg =
      let sb = (w.inodes dir).i_sb in
      let mode' = bit_or mode s_ifreg in
      let w1 = made_world v laws sb mode' 0 i w in
      let only = made_world-Only v laws sb mode' 0 i w n in
      let node = reg_node v laws sb mode' 0 i w n ((reg_type_iff mode is_reg.0).1 is_reg.1) in
      let nodes = linked_inodes v laws dentry i w1 in
      simp (myfs_mknod-made v laws dir dentry mode' 0 i w e n) (
        refl,
        ap (λ t. (t i).i_mode) nodes ∙ node.0,
        ap (λ t. (t i).i_size) nodes ∙ node.1,
        ap (λ t. (t i).i_nlink) nodes ∙ node.2,
        ap (λ t. (t dentry).d_inode) (linked_dentries v laws dentry i w1) ∙ ground arith,
        λ j ne. ap (λ t. t j) nodes ∙ only.others j ne,
      )
