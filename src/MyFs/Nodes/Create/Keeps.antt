-- ===== src/MyFs/Nodes/Create/Keeps.antt =====
-- course_design/myfs_kernel.c: what `myfs_mknod`, `myfs_mkdir` and `myfs_creat` leave alone.
use Prim.Native.Nat.{bit_or}
use grade15_1linux.Common.{ℕ, ◌≡◌, ◌∙◌, refl, ap, some, arith, ℤ, is_nonzero, Bool-cases, inl, inr}
use grade15_1linux.MyFs.{World, Vfs}
use grade15_1linux.MyFs.Nodes.{s_ifreg, s_ifdir, myfs_mknod, myfs_mkdir, myfs_creat}
use grade15_1linux.MyFs.Nodes.Laws.{VfsLaws}
use grade15_1linux.MyFs.Nodes.Create.Outcome.{Mknod, exists, no_memory, made, myfs_mknod-Mknod}

module _ {K : Type 0} (v : Vfs K) (laws : VfsLaws v) where
  -- What `myfs_mknod` leaves alone: the inode of an entry that has one, and the locks.
  pub myfs_mknod_keeps :
      (dir dentry mode dev p i : ℕ) (w : World K)
      → (w.dentries p).d_inode ≡ some i
      → let w' = (myfs_mknod v dir dentry mode dev w).1 in
        ((w'.dentries p).d_inode ≡ some i) × (w'.locked ≡ w.locked)
  myfs_mknod_keeps dir dentry mode dev p i w e =
      kept (myfs_mknod v dir dentry mode dev w) (myfs_mknod-Mknod v laws dir dentry mode dev w)
    where
      kept :
          (r : ℤ × World K)
          → Mknod v dir dentry w r
          → ((r.1.dentries p).d_inode ≡ some i) × (r.1.locked ≡ w.locked)
      kept r (exists _ _ same) = rw same (e, refl)
      kept r (no_memory _ _ _ _ ds ls) = (ap (λ t. (t p).d_inode) ds ∙ e, ls)
      kept r (made j free _ _ _ ds ls) = (ap (λ t. (t p).d_inode) ds ∙ ground arith, ls)

  -- The same of `myfs_mkdir`.
  pub myfs_mkdir_keeps :
      (dir dentry mode p i : ℕ) (w : World K)
      → (w.dentries p).d_inode ≡ some i
      → let w' = (myfs_mkdir v dir dentry mode w).1 in
        ((w'.dentries p).d_inode ≡ some i) × (w'.locked ≡ w.locked)
  unfolding myfs_mkdir
  myfs_mkdir_keeps dir dentry mode p i w e =
      let r = myfs_mknod v dir dentry (bit_or mode s_ifdir) 0 w in
      let kept = myfs_mknod_keeps dir dentry (bit_or mode s_ifdir) 0 p i w e in
      elim (Bool-cases (is_nonzero r.0)) [
        | inl bad ↦ rw bad kept
        | inr good ↦ rw good (
          ap (λ t. (t p).d_inode) (laws.link_dentries dir r.1) ∙ kept.0,
          laws.link_locked dir r.1 ∙ kept.1,
        )
      ]

  -- The same of `myfs_creat`.
  pub myfs_creat_keeps :
      (dir dentry mode p i : ℕ) (w : World K)
      → (w.dentries p).d_inode ≡ some i
      → let w' = (myfs_creat v dir dentry mode w).1 in
        ((w'.dentries p).d_inode ≡ some i) × (w'.locked ≡ w.locked)
  unfolding myfs_creat
  myfs_creat_keeps dir dentry mode p i w e =
      myfs_mknod_keeps dir dentry (bit_or mode s_ifreg) 0 p i w e
