-- ===== src/MyFs/Tree/ByName.antt =====
-- course_design/myfs_kernel.c: `myfs_creat_by_name` and `myfs_creat_file`.
use Prim.Native.Nat.{bit_and}
use Prim.Native.String.{String}
use grade15_1linux.Common.{
  ℕ, ◌≡◌, ◌≢◌, ◌∙◌, refl, ap, true, false, some, arith, ℤ, pos, ◌==◌, Bool-cases, inl, inr,
}
use grade15_1linux.MyFs.{World, Vfs, update, Slot, null, found, err_ptr, MountPtr}
use grade15_1linux.MyFs.Nodes.{s_ifmt, s_ifdir, myfs_mkdir, myfs_creat}
use grade15_1linux.MyFs.Nodes.Laws.{VfsLaws}
use grade15_1linux.MyFs.Nodes.Create.Keeps.{myfs_creat_keeps, myfs_mkdir_keeps}
use grade15_1linux.MyFs.Tree.{M, ◌>>=◌, Created, d_inode, final_error, make, myfs_creat_by_name}

pub bind_some :
    {K A B : Type 0} (m : M K A) (f : A → M K B) (w : World K) {a : A} {w' : World K}
    → m w ≡ some (a, w')
    → (m >>= f) w ≡ f a w'
bind_some m f w e = rw (e, ◌>>=◌)

pub d_inode-some :
    {K : Type 0} (p i : ℕ) (w : World K)
    → (w.dentries p).d_inode ≡ some i
    → d_inode p w ≡ some (i, w)
unfolding d_inode
d_inode-some p i w e = rw (e, d_inode)

module _ {K : Type 0} (v : Vfs K) (laws : VfsLaws v) where
  -- The branches of `make` end, and keep the parent's inode and the locks.
  record Made (slot : Slot) (mode p dir : ℕ) (w : World K) : Type 0 where
    res : ℤ
    after : World K
    result : make v slot mode p w ≡ some (res, after)
    parent : (after.dentries p).d_inode ≡ some dir
    locks : after.locked ≡ w.locked

  make_ok :
      (slot : Slot) (mode p dir : ℕ) (w : World K)
      → slot ≢ null
      → (w.dentries p).d_inode ≡ some dir
      → Made slot mode p dir w
  unfolding make
  make_ok null mode p dir w ne e = absurd (ne refl)
  make_ok (err_ptr c) mode p dir w ne e = record {
    res = pos 0;
    after = w;
    result = refl;
    parent = e;
    locks = refl;
  }
  make_ok (found d) mode p dir w ne e = elim (Bool-cases (bit_and mode s_ifmt == s_ifdir)) [
    | inl b ↦
        let (res, after) = myfs_mkdir v dir d mode w in
        let (parent, locks) = myfs_mkdir_keeps v laws dir d mode p dir w e in
        record {
          res = res;
          after = after;
          result = bind_some (d_inode p) _ w (d_inode-some p dir w e) ∙ rw b;
          parent = parent;
          locks = locks;
        }
    | inr b ↦
        let (res, after) = myfs_creat v dir d mode w in
        let (parent, locks) = myfs_creat_keeps v laws dir d mode p dir w e in
        record {
          res = res;
          after = after;
          result = bind_some (d_inode p) _ w (d_inode-some p dir w e) ∙ rw b;
          parent = parent;
          locks = locks;
        }
  ]

  -- `myfs_creat_by_name` under a parent `p` with the inode `dir`, whose lock is free, returns without
  -- a fault unless the lookup gives a null pointer, and the lock of every inode is then as before,
  -- also where the lookup or the creation failed.
  pub myfs_creat_by_name_unlocks :
      (name : String) (mode p dir : ℕ) (m : MountPtr) (out : Slot) (w : World K)
      → (w.dentries p).d_inode ≡ some dir
      → w.locked dir ≡ false
      → (v.lookup_one_len name p (v.inode_lock dir w)).0 ≢ null
      → (r : Created) × (w' : World K) × (myfs_creat_by_name v name mode m (some p) out w
          ≡ some (r, w'))
        × ((j : ℕ) → w'.locked j ≡ w.locked j)
  unfolding myfs_creat_by_name
  myfs_creat_by_name_unlocks name mode p dir m out w e free ne =
      let w1 = v.inode_lock dir w in
      let slot = (v.lookup_one_len name p w1).0 in
      let w2 = (v.lookup_one_len name p w1).1 in
      let e2 =
        laws.lookup_positive name p p dir w1
          (ap (λ t. (t p).d_inode) (laws.lock_dentries dir w) ∙ e) in
      let made = make_ok slot mode p dir w2 ne e2 in
      let locks : made.after.locked ≡ update w.locked dir true =
        made.locks ∙ laws.lookup_locked name p w1 ∙ laws.lock_locked dir w in
      (
        record { error = final_error slot made.res; slot = slot },
        v.inode_unlock dir made.after,
        bind_some (d_inode p) _ w (d_inode-some p dir w e)
            ∙ bind_some (make v slot mode p) _ w2 made.result
            ∙ bind_some (d_inode p) _ made.after (d_inode-some p dir made.after made.parent),
        λ j.
            ap (λ t. t j) (laws.unlock_locked dir made.after)
            ∙ ap (λ t. update t dir false j) locks
            ∙ ground arith,
      )
