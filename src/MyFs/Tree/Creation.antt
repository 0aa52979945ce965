-- ===== src/MyFs/Tree/Creation.antt =====
-- course_design/myfs_kernel.c: the memory that `myfs_mkdir`, `myfs_creat` and, over them,
-- `myfs_creat_file` leave where there is memory and the name is free.
use Prim.Native.Nat.{bit_and, bit_or}
use grade15_1linux.Common.{
  ℕ, ◌%◌, ◌^◌, ◌≤◌, ◌≡◌, ◌∙◌, refl, ap, sym, subst, ◌||◌, none, some, arith, ◌==◌, pos,
}
use grade15_1linux.MyFs.{OpsTable, Inode, World, Vfs, update, simple_dir_operations}
use grade15_1linux.MyFs.Nodes.{
  s_ifmt, s_ifreg, s_ifdir, init_by_type, fill_inode, myfs_mkdir, myfs_creat,
}
use grade15_1linux.MyFs.Nodes.Laws.{VfsLaws}
use grade15_1linux.MyFs.Nodes.Create.{
  instantiated, made_world, made_world-Only, dir_node, reg_node, linked_world, linked_inodes,
  linked_dentries,
}
use grade15_1linux.MyFs.Nodes.Create.Outcome.{myfs_mknod-made}
use grade15_1linux.MyFs.Nodes.Create.Made.{myfs_mkdir-made}
use grade15_1linux.MyFs.Tree.Dcache.{DcacheLaws}
use grade15_1linux.MyFs.Tree.Added.{Same, Added}

module _ {K : Type 0} (v : Vfs K) (laws : VfsLaws v) (cache : DcacheLaws v) where
  open cache use {used, child}

  link-Same : (i j : ℕ) (w : World K) → Same ((v.inc_nlink i w).inodes j) (w.inodes j)
  link-Same i j w = rw (laws.link_inodes i w) (ground arith, ground arith)

  -- The inodes in use behind `myfs_get_inode`, for the two types that the module makes.
  module _ (sb mode i j : ℕ) (w : World K) (e : (v.new_inode sb w).0 ≡ some i) where
    dir_used :
        bit_and mode s_ifmt ≡ s_ifdir
        → used (made_world v laws sb mode 0 i w).kernel j ≡ (j == i || used w.kernel j)
    unfolding made_world init_by_type fill_inode
    dir_used is_dir = rw is_dir (cache.link_used i j _ ∙ cache.new_used sb i j w e)

    reg_used :
        bit_and mode s_ifmt ≡ s_ifreg
        → used (made_world v laws sb mode 0 i w).kernel j ≡ (j == i || used w.kernel j)
    unfolding made_world init_by_type fill_inode
    reg_used is_reg = rw is_reg (cache.new_used sb i j w e)

  linked_used :
      (d i j : ℕ) (w : World K) → used (linked_world v laws d i w).kernel j ≡ used w.kernel j
  unfolding linked_world
  linked_used d i j w = cache.dget_used d j (v.d_instantiate d i w) ∙ cache.instantiate_used d i j w

  -- `myfs_mknod` on the entry `d`, up to the kernel's own functions.
  mknod-Added :
      (sb d mode i : ℕ) (fop : OpsTable) (w : World K)
      → (v.new_inode sb w).0 ≡ some i
      → (let w1 = made_world v laws sb mode 0 i w in
          ((j : ℕ) → used w1.kernel j ≡ (j == i || used w.kernel j))
          × ((w1.inodes i).i_mode ≡ mode % 2 ^ 16)
          × ((w1.inodes i).i_fop ≡ fop))
      → Added v laws cache d i 1
          (mode % 2 ^ 16)
          fop
          w
          (linked_world v laws d i (made_world v laws sb mode 0 i w))
  mknod-Added sb d mode i fop w e facts =
      let w1 = made_world v laws sb mode 0 i w in
      let only = made_world-Only v laws sb mode 0 i w e in
      let nodes = linked_inodes v laws d i w1 in
      let linked =
        linked_dentries v laws d i w1 ∙ ap (λ t. update t d (instantiated i (t d))) only.entries in
      record {
        entries = λ a. ap (λ t. (t a).d_inode) linked ∙ ground arith;
        counted = ap (λ t. (t d).d_count) linked ∙ ground arith;
        holds =
            λ a. subst (λ t. (w.dentries a).d_count ≤ (t a).d_count) (sym linked) (ground arith);
        others = λ j ne. (
          ap (λ t. (t j).i_mode) nodes ∙ ap (λ (n : Inode). n.i_mode) (only.others j ne),
          ap (λ t. (t j).i_fop) nodes ∙ ap (λ (n : Inode). n.i_fop) (only.others j ne),
        );
        taken = λ j. linked_used d i j w1 ∙ facts.0 j;
        fresh = cache.new_unused sb i w e;
        node = (ap (λ t. (t i).i_mode) nodes ∙ facts.1, ap (λ t. (t i).i_fop) nodes ∙ facts.2);
      }

  link-Added :
      {d i n mode : ℕ} {fop : OpsTable} {w w' : World K} (dir : ℕ)
      → Added v laws cache d i n mode fop w w'
      → Added v laws cache d i n mode fop w (v.inc_nlink dir w')
  link-Added {d} {i} {w} {w'} dir s = record {
    entries = λ a. ap (λ t. (t a).d_inode) (laws.link_dentries dir w') ∙ s.entries a;
    counted = ap (λ t. (t d).d_count) (laws.link_dentries dir w') ∙ s.counted;
    holds = λ a.
        subst (λ t. (w.dentries a).d_count ≤ (t a).d_count) (sym (laws.link_dentries dir w'))
          (s.holds a);
    others = λ j ne.
        ((link-Same dir j w').0 ∙ (s.others j ne).0, (link-Same dir j w').1 ∙ (s.others j ne).1);
    taken = λ j. cache.link_used dir j w' ∙ s.taken j;
    fresh = s.fresh;
    node = ((link-Same dir i w').0 ∙ s.node.0, (link-Same dir i w').1 ∙ s.node.1);
  }

  module _ (dir d mode i : ℕ) (w : World K) (free : (w.dentries d).d_inode ≡ none)
      (e : (v.new_inode (w.inodes dir).i_sb w).0 ≡ some i) where
    pub mkdir-Added :
        bit_and (bit_or mode s_ifdir) s_ifmt ≡ s_ifdir
        → ((myfs_mkdir v dir d mode w).0 ≡ pos 0)
          × Added v laws cache d i 1
              (bit_or mode s_ifdir % 2 ^ 16)
              simple_dir_operations
              w
              (myfs_mkdir v dir d mode w).1
    mkdir-Added is_dir =
        let sb = (w.inodes dir).i_sb in
        let mode' = bit_or mode s_ifdir in
        let node = dir_node v laws sb mode' 0 i w e is_dir in
        rw (myfs_mkdir-made v laws dir d mode i w free e) (
          refl,
          link-Added dir (
              mknod-Added sb d mode' i simple_dir_operations w e
                ((λ j. dir_used sb mode' i j w e is_dir), node.0, node.4)),
        )

    pub creat-Added :
        bit_and (bit_or mode s_ifreg) s_ifmt ≡ s_ifreg
        → (fop : OpsTable) × ((myfs_creat v dir d mode w).0 ≡ pos 0)
          × Added v laws cache d i 1
              (bit_or mode s_ifreg % 2 ^ 16)
              fop
              w
              (myfs_creat v dir d mode w).1
    unfolding myfs_creat
    creat-Added is_reg =
        let sb = (w.inodes dir).i_sb in
        let mode' = bit_or mode s_ifreg in
        let node = reg_node v laws sb mode' 0 i w e is_reg in
        let fop = ((made_world v laws sb mode' 0 i w).inodes i).i_fop in
        rw (myfs_mknod-made v laws dir d mode' 0 i w free e) (
          fop,
          refl,
          mknod-Added sb d mode' i fop w e ((λ j. reg_used sb mode' i j w e is_reg), node.0, refl),
        )
