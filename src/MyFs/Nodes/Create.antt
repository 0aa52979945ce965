-- ===== src/MyFs/Nodes/Create.antt =====
-- course_design/myfs_kernel.c: what `myfs_get_inode`, `d_instantiate` and `dget` do to the inodes and
-- the directory entries. The children say so of `myfs_mknod`, `myfs_mkdir` and `myfs_creat`.
pub mod Outcome
pub mod Made
pub mod Keeps
use Prim.Native.Nat.{bit_and, bit_or}
use grade15_1linux.Common.{
  ℕ, ◌+◌, ◌%◌, ◌^◌, ◌<◌, ◌≡◌, ◌≢◌, ◌⊎◌, ◌∙◌, refl, ap, fun_ext, none, some, arith, ℤ, pos, eperm,
  is_nonzero, ◌==◌, Bool-cases, Option-cases, inl, inr,
}
use grade15_1linux.MyFs.{
  simple_dir_inode_operations, simple_dir_operations, Dentry, World, Vfs, update,
}
use grade15_1linux.MyFs.Nodes.{
  s_ifmt, s_ifreg, s_ifdir, vmacache_size, as_dir, set_inode, init_by_type, fill_inode,
  myfs_get_inode, myfs_mknod, myfs_mkdir, myfs_creat,
}
use grade15_1linux.MyFs.Nodes.Laws.{VfsLaws, linked}
use grade15_1linux.MyFs.Nodes.Mode.{dir_type_iff, reg_type_iff}

-- Nothing but the inode `i` has changed.
pub record Only {K : Type 0} (i : ℕ) (w w' : World K) : Type 0 where
  pub others : (j : ℕ) → i ≢ j → w'.inodes j ≡ w.inodes j
  pub entries : w'.dentries ≡ w.dentries
  pub locks : w'.locked ≡ w.locked

abbrev pub instantiated : ℕ → Dentry → Dentry
instantiated i d = record { d_inode = some i; d_count = d.d_count + 1 }

module _ {K : Type 0} (v : Vfs K) (laws : VfsLaws v) where
  init_by_type-Only : (i mode dev : ℕ) (w : World K) → Only i w (init_by_type v i mode dev w)
  unfolding init_by_type
  init_by_type-Only i mode dev w = elim (Bool-cases (bit_and mode s_ifmt == s_ifreg)) [
    | inl r ↦ rw r (record { others = λ j ne. refl; entries = refl; locks = refl })
    | inr n ↦ rw n (elim (Bool-cases (bit_and mode s_ifmt == s_ifdir)) [
      | inl d ↦
          let w1 = set_inode i (as_dir (w.inodes i)) w in
          rw d (record {
            others = λ j ne. rw (laws.link_inodes i w1) (ground arith);
            entries = laws.link_dentries i w1;
            locks = laws.link_locked i w1;
          })
      | inr s ↦ rw s (record {
        others = λ j ne. laws.special_inodes i mode dev j w ne;
        entries = laws.special_dentries i mode dev w;
        locks = laws.special_locked i mode dev w;
      })
    ])
  ]

  fill_inode-Only : (i mode : ℕ) (w : World K) → Only i w (fill_inode v i mode w)
  unfolding fill_inode
  fill_inode-Only i mode w = record { others = λ j ne. ground arith; entries = refl; locks = refl }

  unfoldable pub made_world : ℕ → ℕ → ℕ → ℕ → World K → World K
  made_world sb mode dev i w = init_by_type v i mode dev (fill_inode v i mode (v.new_inode sb w).1)

  pub myfs_get_inode-some :
      (sb mode dev i : ℕ) (w : World K)
      → (v.new_inode sb w).0 ≡ some i
      → myfs_get_inode v sb mode dev w ≡ (some i, made_world sb mode dev i w)
  unfolding myfs_get_inode made_world
  myfs_get_inode-some sb mode dev i w e = rw (e, myfs_get_inode)

  pub myfs_get_inode-none :
      (sb mode dev : ℕ) (w : World K)
      → (v.new_inode sb w).0 ≡ none
      → myfs_get_inode v sb mode dev w ≡ (none, (v.new_inode sb w).1)
  unfolding myfs_get_inode
  myfs_get_inode-none sb mode dev w e = rw (e, myfs_get_inode)

  pub made_world-Only :
      (sb mode dev i : ℕ) (w : World K)
      → (v.new_inode sb w).0 ≡ some i
      → Only i w (made_world sb mode dev i w)
  unfolding made_world
  made_world-Only sb mode dev i w e = record {
    others =
        λ j ne. b.others j ne ∙ a.others j ne ∙ laws.new_inodes sb j w (λ same. ne (ground arith));
    entries = b.entries ∙ a.entries ∙ laws.new_dentries sb w;
    locks = b.locks ∙ a.locks ∙ laws.new_locked sb w;
  }
    where
      w1 : World K
      w1 = (v.new_inode sb w).1

      a : Only i w1 (fill_inode v i mode w1)
      a = fill_inode-Only i mode w1

      b : Only i (fill_inode v i mode w1) (init_by_type v i mode dev (fill_inode v i mode w1))
      b = init_by_type-Only i mode dev (fill_inode v i mode w1)

  -- The new inode of a directory: the attributes, the kernel's operations and two links.
  pub dir_node :
      (sb mode dev i : ℕ) (w : World K)
      → (v.new_inode sb w).0 ≡ some i
      → bit_and mode s_ifmt ≡ s_ifdir
      → let node = (made_world sb mode dev i w).inodes i in
        (node.i_mode ≡ mode % 2 ^ 16)
        × (node.i_size ≡ vmacache_size)
        × (node.i_nlink ≡ 2)
        × (node.i_op ≡ simple_dir_inode_operations)
        × (node.i_fop ≡ simple_dir_operations)
  unfolding made_world init_by_type fill_inode
  dir_node sb mode dev i w e is_dir =
      rw
        (
          is_dir,
          laws.link_inodes i
              (set_inode i (as_dir ((fill_inode v i mode w1).inodes i)) (fill_inode v i mode w1)),
        )
        (ground (arith, laws.new_nlink sb i w e))
    where
      w1 : World K
      w1 = (v.new_inode sb w).1

  -- The new inode of a regular file: the attributes and one link.
  pub reg_node :
      (sb mode dev i : ℕ) (w : World K)
      → (v.new_inode sb w).0 ≡ some i
      → bit_and mode s_ifmt ≡ s_ifreg
      → let node = (made_world sb mode dev i w).inodes i in
        (node.i_mode ≡ mode % 2 ^ 16) × (node.i_size ≡ vmacache_size) × (node.i_nlink ≡ 1)
  unfolding made_world init_by_type fill_inode
  reg_node sb mode dev i w e is_reg = rw is_reg (ground (arith, laws.new_nlink sb i w e))

  -- The memory behind `d_instantiate` and `dget`.
  module _ (dentry i : ℕ) (w : World K) where
    unfoldable pub linked_world : World K
    linked_world = v.dget dentry (v.d_instantiate dentry i w)

    pub linked_inodes : linked_world.inodes ≡ w.inodes
    unfolding linked_world
    linked_inodes =
        laws.dget_inodes dentry (v.d_instantiate dentry i w) ∙ laws.instantiate_inodes dentry i w

    pub linked_locked : linked_world.locked ≡ w.locked
    unfolding linked_world
    linked_locked =
        laws.dget_locked dentry (v.d_instantiate dentry i w) ∙ laws.instantiate_locked dentry i w

    pub linked_dentries :
        linked_world.dentries ≡ update w.dentries dentry (instantiated i (w.dentries dentry))
    unfolding linked_world
    linked_dentries = fun_ext λ d.
        rw
          (
            laws.dget_dentries dentry (v.d_instantiate dentry i w),
            laws.instantiate_dentries dentry i w,
          )
          (ground arith)
