-- ===== src/MyFs/Nodes/Create/Outcome.antt =====
-- course_design/myfs_kernel.c: the outcomes of `myfs_mknod`, on every branch.
use grade15_1linux.Common.{
  ℕ, ◌≡◌, ◌≢◌, ◌∙◌, refl, ap, none, some, arith, ℤ, pos, eperm, Option-cases, inl, inr,
}
use grade15_1linux.MyFs.{World, Vfs, update}
use grade15_1linux.MyFs.Nodes.{myfs_mknod}
use grade15_1linux.MyFs.Nodes.Laws.{VfsLaws}
use grade15_1linux.MyFs.Nodes.Create.{
  instantiated, made_world, myfs_get_inode-some, myfs_get_inode-none, made_world-Only, linked_world,
  linked_inodes, linked_locked, linked_dentries,
}

-- The outcomes of `myfs_mknod` on the inode `dir` of a directory: the entry had an inode already, and
-- nothing changes; there is no memory, and no inode, entry or lock changes; or the new inode `i`
-- stands behind the entry, which has one more reference, while all other inodes and
-- entries are as they were.
pub data Mknod {K : Type 0} (v : Vfs K) (dir dentry : ℕ) (w : World K) (r : ℤ × World K)
    : Type 0 where
  exists : (i : ℕ) → (w.dentries dentry).d_inode ≡ some i → r ≡ (eperm, w) → Mknod v dir dentry w r
  no_memory :
      (w.dentries dentry).d_inode ≡ none
      → (v.new_inode (w.inodes dir).i_sb w).0 ≡ none
      → r.0 ≡ eperm
      → ((j : ℕ) → r.1.inodes j ≡ w.inodes j)
      → r.1.dentries ≡ w.dentries
      → r.1.locked ≡ w.locked
      → Mknod v dir dentry w r
  made :
      (i : ℕ)
      → (w.dentries dentry).d_inode ≡ none
      → (v.new_inode (w.inodes dir).i_sb w).0 ≡ some i
      → r.0 ≡ pos 0
      → ((j : ℕ) → i ≢ j → r.1.inodes j ≡ w.inodes j)
      → r.1.dentries ≡ update w.dentries dentry (instantiated i (w.dentries dentry))
      → r.1.locked ≡ w.locked
      → Mknod v dir dentry w r

module _ {K : Type 0} (v : Vfs K) (laws : VfsLaws v) where
  myfs_mknod-exists :
      (dir dentry mode dev i : ℕ) (w : World K)
      → (w.dentries dentry).d_inode ≡ some i
      → myfs_mknod v dir dentry mode dev w ≡ (eperm, w)
  unfolding myfs_mknod
  myfs_mknod-exists dir dentry mode dev i w e = simp (e, myfs_mknod)

  myfs_mknod-no_memory :
      (dir dentry mode dev : ℕ) (w : World K)
      → (w.dentries dentry).d_inode ≡ none
      → (v.new_inode (w.inodes dir).i_sb w).0 ≡ none
      → myfs_mknod v dir dentry mode dev w ≡ (eperm, (v.new_inode (w.inodes dir).i_sb w).1)
  unfolding myfs_mknod
  myfs_mknod-no_memory dir dentry mode dev w e n =
      simp (e, myfs_mknod, myfs_get_inode-none v laws (w.inodes dir).i_sb mode dev w n)

  pub myfs_mknod-made :
      (dir dentry mode dev i : ℕ) (w : World K)
      → (w.dentries dentry).d_inode ≡ none
      → (v.new_inode (w.inodes dir).i_sb w).0 ≡ some i
      → myfs_mknod v dir dentry mode dev w
        ≡ (pos 0, linked_world v laws dentry i (made_world v laws (w.inodes dir).i_sb mode dev i w))
  unfolding myfs_mknod linked_world
  myfs_mknod-made dir dentry mode dev i w e n =
      simp (e, myfs_mknod, myfs_get_inode-some v laws (w.inodes dir).i_sb mode dev i w n)

  -- Every call of `myfs_mknod` has one of the outcomes of `Mknod`.
  pub myfs_mknod-Mknod :
      (dir dentry mode dev : ℕ) (w : World K)
      → Mknod v dir dentry w (myfs_mknod v dir dentry mode dev w)
  myfs_mknod-Mknod dir dentry mode dev w = elim (Option-cases (w.dentries dentry).d_inode) [
    | inr (i, e) ↦ exists i e (myfs_mknod-exists dir dentry mode dev i w e)
    | inl e ↦
        let sb = (w.inodes dir).i_sb in
        elim (Option-cases (v.new_inode sb w).0) [
          | inl n ↦ simp (myfs_mknod-no_memory dir dentry mode dev w e n) (
              no_memory e n refl (λ j. laws.new_inodes sb j w (λ same. ground arith))
                (laws.new_dentries sb w) (laws.new_locked sb w))
          | inr (i, n) ↦
              let w1 = made_world v laws sb mode dev i w in
              let only = made_world-Only v laws sb mode dev i w n in
              simp (myfs_mknod-made dir dentry mode dev i w e n) (
                made i e n refl
                  (λ j ne.
                    ap (λ nodes. nodes j) (linked_inodes v laws dentry i w1) ∙ only.others j ne)
                  (linked_dentries v laws dentry i w1
                    ∙ ap (λ ds. update ds dentry (instantiated i (ds dentry))) only.entries)
                  (linked_locked v laws dentry i w1 ∙ only.locks))
        ]
  ]
