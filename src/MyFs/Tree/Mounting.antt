-- ===== src/MyFs/Tree/Mounting.antt =====
-- course_design/myfs_kernel.c: what `myfs_get_sb` and `myfs_fill_super` rely on of the kernel's mounts,
-- and the empty tree that a mount leaves.
use Prim.Native.String.{String}
use grade15_1linux.Common.{
  along, ℕ, ◌==◌, ==_iff, Bool-cases, inl, inr, ◌⊎◌, ◌≡◌, ◌≢◌, ◌∙◌, refl, ap, sym, Bool, true,
  false, Option, none, some, pos, List, [], ◌∷◌,
}
use grade15_1linux.MyFs.{
  World, Vfs, MountPtr, mounted, Slot, found, TreeDescr, FillSuper, FileSystemType,
}
use grade15_1linux.MyFs.Nodes.Laws.{VfsLaws}
use grade15_1linux.MyFs.Tree.{myfs_fill_super, myfs_get_sb, my_fs_type, myfs_magic}
use grade15_1linux.MyFs.Tree.Dcache.{DcacheLaws}
use grade15_1linux.MyFs.Tree.Entries.{IsTree}

module _ {K : Type 0} (v : Vfs K) (laws : VfsLaws v) (cache : DcacheLaws v) where
  open cache use {used, child}

  -- The kernel has changed nothing but what it keeps for itself, and that not the inodes in use.
  pub record Calm (w w' : World K) : Type 0 where
    pub same_dentries : w'.dentries ≡ w.dentries
    pub same_locks : w'.locked ≡ w.locked
    pub same_used : (j : ℕ) → used w'.kernel j ≡ used w.kernel j

  -- A super block has got a root, which is no entry of a directory and has a new inode.
  pub record Rooted (s_root : K → ℕ → Option ℕ) (sb : ℕ) (w w' : World K) : Type 0 where
    pub root : ℕ
    pub inode : ℕ
    pub is_root : s_root w'.kernel sb ≡ some root
    pub here : (w'.dentries root).d_inode ≡ some inode
    pub apart : (p : ℕ) (s : String) → root ≢ child p s
    pub others : (a : ℕ) → root ≢ a → (w'.dentries a).d_inode ≡ (w.dentries a).d_inode
    pub taken : used w'.kernel inode ≡ true
    pub unlocked : w'.locked ≡ w.locked

  -- `mount_single` has called `fill` on a super block, and gives its root if that succeeds.
  pub record FillCalled (s_root : K → ℕ → Option ℕ) (content : Option ℕ) (fill : FillSuper K)
      (w : World K) (r : Slot × World K) : Type 0 where
    pub sb : ℕ
    pub silent : Bool
    pub before : World K
    pub calm : Calm w before
    pub result :
        (root : ℕ)
        → (fill sb content silent before).0 ≡ pos 0
        → s_root (fill sb content silent before).1.kernel sb ≡ some root
        → (r.0 ≡ found root) × Calm (fill sb content silent before).1 r.1

  -- `kern_mount` has called the type's `mount`, and gives the mount of the root that this gives.
  pub record MountCalled (fs : FileSystemType K) (w : World K) (r : MountPtr × World K)
      : Type 0 where
    pub flags : ℕ
    pub device : String
    pub content : Option ℕ
    pub before : World K
    pub calm : Calm w before
    pub result :
        (root : ℕ)
        → (fs.mount fs.name flags device content before).0 ≡ found root
        → (r.0 ≡ mounted (record { s_root = some root }))
          × Calm (fs.mount fs.name flags device content before).1 r.1

  -- The documented behaviour of the kernel's mounts, where there is memory for them. `s_root` is the
  -- root of a super block. A table of files without a name at its front has no file.
  pub record MountLaws : Type 0 where
    pub s_root : K → ℕ → Option ℕ
    pub register_calm :
        (w : World K) → (v.register_filesystem w).0 ≡ pos 0 → Calm w (v.register_filesystem w).1
    pub fill_done :
        (sb magic : ℕ) (file : TreeDescr) (files : List TreeDescr) (w : World K)
        → file.name ≡ ""
        → (v.simple_fill_super sb magic (file ∷ files) w).0 ≡ pos 0
    pub fill_rooted :
        (sb magic : ℕ) (file : TreeDescr) (files : List TreeDescr) (w : World K)
        → file.name ≡ ""
        → Rooted s_root sb w (v.simple_fill_super sb magic (file ∷ files) w).1
    pub mount_single_calls :
        (fs : String) (flags : ℕ) (content : Option ℕ) (fill : FillSuper K) (w : World K)
        → FillCalled s_root content fill w (v.mount_single fs flags content fill w)
    pub kern_mount_calls :
        (fs : FileSystemType K) (w : World K) → MountCalled fs w (v.kern_mount fs w)

  -- A memory without files: no entry has an inode, and none is locked.
  pub record IsBlank (w : World K) : Type 0 where
    pub no_inode : (d : ℕ) → (w.dentries d).d_inode ≡ none
    pub no_lock : (j : ℕ) → w.locked j ≡ false

  pub Calm-IsBlank : {w w' : World K} → Calm w w' → IsBlank w → IsBlank w'
  Calm-IsBlank c b = record {
    no_inode = λ d. ap (λ t. (t d).d_inode) c.same_dentries ∙ b.no_inode d;
    no_lock = λ j. ap (λ t. t j) c.same_locks ∙ b.no_lock j;
  }

  Calm-IsTree :
      {root : ℕ} {w w' : World K}
      → Calm w w'
      → IsTree v laws cache root [] w
      → IsTree v laws cache root [] w'
  Calm-IsTree {root} c t = record {
    shows = tt;
    absent = λ p s away. ap (λ d. (d (child p s)).d_inode) c.same_dentries ∙ t.absent p s away;
    rooted = (t.rooted.0, ap (λ d. (d root).d_inode) c.same_dentries ∙ t.rooted.1);
    in_use =
        λ d i e. c.same_used i ∙ t.in_use d i (ap (λ f. (f d).d_inode) (sym c.same_dentries) ∙ e);
    unlocked = λ j. ap (λ l. l j) c.same_locks ∙ t.unlocked j;
  }

  in_use :
      (s_root : K → ℕ → Option ℕ) (sb : ℕ) (w w' : World K)
      → IsBlank w
      → (r : Rooted s_root sb w w') (d i : ℕ) → (w'.dentries d).d_inode ≡ some i
      → ((r.root == d) ≡ true) ⊎ ((r.root == d) ≡ false)
      → used w'.kernel i ≡ true
  in_use s_root sb w w' b r d i e (inl same) =
      let here : (w'.dentries d).d_inode ≡ some r.inode =
        sym (ap (λ a. (w'.dentries a).d_inode) ((==_iff r.root d).0 same)) ∙ r.here in
      let inode : some r.inode ≡ some i = sym here ∙ e in
      along (λ j. used w'.kernel j ≡ true) inode r.taken
  in_use s_root sb w w' b r d i e (inr other) =
      let free = r.others d (λ same. absurd (cc ((==_iff r.root d).1 same))) ∙ b.no_inode d in
      absurd (cc)

  Rooted-IsTree :
      (s_root : K → ℕ → Option ℕ) (sb : ℕ) (w w' : World K)
      → IsBlank w
      → (r : Rooted s_root sb w w') → IsTree v laws cache r.root [] w'
  Rooted-IsTree s_root sb w w' b r = record {
    shows = tt;
    absent = λ p s away. r.others (child p s) (r.apart p s) ∙ b.no_inode (child p s);
    rooted = (r.inode, r.here);
    in_use = λ d i e. in_use s_root sb w w' b r d i e (Bool-cases (r.root == d));
    unlocked = λ j. ap (λ l. l j) r.unlocked ∙ b.no_lock j;
  }

  module _ (mounts : MountLaws) where
    fill-IsTree :
        (sb : ℕ) (content : Option ℕ) (silent : Bool) (w : World K)
        → IsBlank w
        → (root : ℕ) × (let r = myfs_fill_super v sb content silent w in
            (r.0 ≡ pos 0)
            × (mounts.s_root r.1.kernel sb ≡ some root)
            × IsTree v laws cache root [] r.1)
    unfolding myfs_fill_super
    fill-IsTree sb content silent w b =
        let file : TreeDescr = record { name = ""; ops = none; mode = 0 } in
        let r = mounts.fill_rooted sb myfs_magic file [] w refl in
        (
          r.root,
          (
            mounts.fill_done sb myfs_magic file [] w refl,
            r.is_root,
            Rooted-IsTree mounts.s_root sb w _ b r,
          ),
        )

    get_sb-IsTree :
        (fs : String) (flags : ℕ) (device : String) (content : Option ℕ) (w : World K)
        → IsBlank w
        → (root : ℕ) × (let r = myfs_get_sb v fs flags device content w in
            (r.0 ≡ found root) × IsTree v laws cache root [] r.1)
    unfolding myfs_get_sb
    get_sb-IsTree fs flags device content w b =
        let c = mounts.mount_single_calls fs flags content (myfs_fill_super v) w in
        let (root, (ok, is_root, tree)) =
          fill-IsTree c.sb content c.silent c.before (Calm-IsBlank c.calm b) in
        let (result, calm) = c.result root ok is_root in (root, (result, Calm-IsTree calm tree))

    -- The mount of the file system over a memory without files has an empty tree.
    pub mount-IsTree :
        (w : World K)
        → IsBlank w
        → (root : ℕ) × (let r = v.kern_mount (my_fs_type v) w in
            (r.0 ≡ mounted (record { s_root = some root })) × IsTree v laws cache root [] r.1)
    mount-IsTree w b =
        let c = mounts.kern_mount_calls (my_fs_type v) w in
        let (root, (ok, tree)) =
          get_sb-IsTree "myfs" c.flags c.device c.content c.before (Calm-IsBlank c.calm b) in
        let (result, calm) = c.result root ok in (root, (result, Calm-IsTree calm tree))
