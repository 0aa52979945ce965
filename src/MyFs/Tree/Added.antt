-- ===== src/MyFs/Tree/Added.antt =====
-- course_design/myfs_kernel.c: the memory behind one file or directory that `myfs_creat_by_name` has
-- made.
use Prim.Native.String.{String}
use grade15_1linux.Common.{
  ℕ, ◌+◌, ◌≤◌, ◌≡◌, ◌≢◌, ◌∙◌, ap, sym, subst, some, false, ◌||◌, arith, ◌==◌,
}
use grade15_1linux.MyFs.{OpsTable, Inode, World, Vfs, update}
use grade15_1linux.MyFs.Nodes.Laws.{VfsLaws}
use grade15_1linux.MyFs.Tree.Dcache.{DcacheLaws}

-- The attributes that the tree shows of an inode.
abbrev pub Same : Inode → Inode → Type 0
Same a b = (a.i_mode ≡ b.i_mode) × (a.i_fop ≡ b.i_fop)

module _ {K : Type 0} (v : Vfs K) (laws : VfsLaws v) (cache : DcacheLaws v) where
  open cache use {used, child}

  -- The entry `d` has got the new inode `i` and `n` references, and no entry has lost one; of the other
  -- inodes no attribute has changed.
  pub record Added (d i n mode : ℕ) (fop : OpsTable) (w w' : World K) : Type 0 where
    pub entries :
        (a : ℕ) → (w'.dentries a).d_inode ≡ update (λ b. (w.dentries b).d_inode) d (some i) a
    pub counted : (w'.dentries d).d_count ≡ (w.dentries d).d_count + n
    pub holds : (a : ℕ) → (w.dentries a).d_count ≤ (w'.dentries a).d_count
    pub others : (j : ℕ) → i ≢ j → Same (w'.inodes j) (w.inodes j)
    pub taken : (j : ℕ) → used w'.kernel j ≡ (j == i || used w.kernel j)
    pub fresh : used w.kernel i ≡ false
    pub node : ((w'.inodes i).i_mode ≡ mode) × ((w'.inodes i).i_fop ≡ fop)

  -- The lock of an inode is taken or given back.
  pub record Quiet (w w' : World K) : Type 0 where
    pub same_entries : w'.dentries ≡ w.dentries
    pub same_inodes : w'.inodes ≡ w.inodes
    pub same_used : (j : ℕ) → used w'.kernel j ≡ used w.kernel j

  pub lock-Quiet : (i : ℕ) (w : World K) → Quiet w (v.inode_lock i w)
  lock-Quiet i w = record {
    same_entries = laws.lock_dentries i w;
    same_inodes = laws.lock_inodes i w;
    same_used = λ j. cache.lock_used i j w;
  }

  pub unlock-Quiet : (i : ℕ) (w : World K) → Quiet w (v.inode_unlock i w)
  unlock-Quiet i w = record {
    same_entries = laws.unlock_dentries i w;
    same_inodes = laws.unlock_inodes i w;
    same_used = λ j. cache.unlock_used i j w;
  }

  -- The entry `d` has got a reference by a lookup, and no entry has lost one.
  pub record Looked (d : ℕ) (w w' : World K) : Type 0 where
    pub same_inode : (a : ℕ) → (w'.dentries a).d_inode ≡ (w.dentries a).d_inode
    pub referenced : (w'.dentries d).d_count ≡ (w.dentries d).d_count + 1
    pub all_held : (a : ℕ) → (w.dentries a).d_count ≤ (w'.dentries a).d_count
    pub all_inodes : w'.inodes ≡ w.inodes
    pub all_used : (j : ℕ) → used w'.kernel j ≡ used w.kernel j

  -- The lookup under the lock of the directory's inode.
  pub lookup-Looked :
      (s : String) (p dir : ℕ) (w : World K)
      → Looked (child p s) w (v.lookup_one_len s p (v.inode_lock dir w)).1
  lookup-Looked s p dir w =
      let lock = lock-Quiet dir w in
      let w1 = v.inode_lock dir w in
      record {
        same_inode = λ a. cache.lookup_inode s p a w1 ∙ ap (λ t. (t a).d_inode) lock.same_entries;
        referenced =
            cache.lookup_reference s p w1 ∙ ap (λ t. (t (child p s)).d_count + 1) lock.same_entries;
        all_held = λ a.
            subst (λ t. (t a).d_count ≤ ((v.lookup_one_len s p w1).1.dentries a).d_count)
              lock.same_entries (cache.lookup_holds s p a w1);
        all_inodes = laws.lookup_inodes s p w1 ∙ lock.same_inodes;
        all_used = λ j. cache.lookup_used s p j w1 ∙ lock.same_used j;
      }

  module _ {d i n mode : ℕ} {fop : OpsTable} {a b c : World K} where
    pub Added-after : Looked d a b → Added d i n mode fop b c → Added d i (n + 1) mode fop a c
    Added-after q s = record {
      entries = λ x. ground (arith, s.entries x, q.same_inode x);
      counted = omega (arith, s.counted, q.referenced);
      holds = λ x. omega (arith, s.holds x, q.all_held x);
      others = λ j ne. (
        (s.others j ne).0 ∙ ap (λ t. (t j).i_mode) q.all_inodes,
        (s.others j ne).1 ∙ ap (λ t. (t j).i_fop) q.all_inodes,
      );
      taken = λ j. s.taken j ∙ ap (λ u. j == i || u) (q.all_used j);
      fresh = ground (arith, q.all_used i, s.fresh);
      node = s.node;
    }

    pub Added-before : Added d i n mode fop a b → Quiet b c → Added d i n mode fop a c
    Added-before s q = record {
      entries = λ x. ap (λ t. (t x).d_inode) q.same_entries ∙ s.entries x;
      counted = ap (λ t. (t d).d_count) q.same_entries ∙ s.counted;
      holds =
          λ x. subst (λ t. (a.dentries x).d_count ≤ (t x).d_count) (sym q.same_entries) (s.holds x);
      others = λ j ne. (
        ap (λ t. (t j).i_mode) q.same_inodes ∙ (s.others j ne).0,
        ap (λ t. (t j).i_fop) q.same_inodes ∙ (s.others j ne).1,
      );
      taken = λ j. q.same_used j ∙ s.taken j;
      fresh = s.fresh;
      node = (
        ap (λ t. (t i).i_mode) q.same_inodes ∙ s.node.0,
        ap (λ t. (t i).i_fop) q.same_inodes ∙ s.node.1,
      );
    }
