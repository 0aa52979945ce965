-- ===== src/MyFs/Tree/Entries.antt =====
-- The tree of course_design/myfs_kernel.c as a list of its files and directories, and that one creation
-- adds one of them.
use Prim.Native.String.{String}
use grade15_1linux.Common.{
  ℕ, ◌≤◌, ◌≡◌, ◌≢◌, ◌⊎◌, ◌∙◌, sym, true, false, none, some, arith, List, [], ◌∷◌, inl, inr,
}
use grade15_1linux.MyFs.{OpsTable, World, Vfs}
use grade15_1linux.MyFs.Nodes.Laws.{VfsLaws}
use grade15_1linux.MyFs.Tree.Dcache.{DcacheLaws}
use grade15_1linux.MyFs.Tree.Added.{Added}

-- A name in a directory, with the mode and the operations of its inode.
pub record Entry : Type 0 where
  pub dir : ℕ
  pub name : String
  pub mode : ℕ
  pub fop : OpsTable

-- No entry of the list has this name in this directory.
abbrev pub Absent : ℕ → String → List Entry → Type 0
Absent p s [] = Unit {0}
Absent p s (e ∷ es) = (p ≢ e.dir ⊎ s ≢ e.name) × Absent p s es

module _ {K : Type 0} (v : Vfs K) (laws : VfsLaws v) (cache : DcacheLaws v) where
  open cache use {used, child}

  -- The memory has an inode with these attributes behind the entry, to which two references are held.
  pub record Shows (w : World K) (e : Entry) : Type 0 where
    pub inode : ℕ
    pub here : (w.dentries (child e.dir e.name)).d_inode ≡ some inode
    pub held : 2 ≤ (w.dentries (child e.dir e.name)).d_count
    pub attributes : ((w.inodes inode).i_mode ≡ e.mode) × ((w.inodes inode).i_fop ≡ e.fop)

  abbrev pub AllShow : World K → List Entry → Type 0
  AllShow w [] = Unit {0}
  AllShow w (e ∷ es) = Shows w e × AllShow w es

  -- The tree under the root entry is this list: all of it is there, and every other name is free. Every
  -- inode behind an entry is in use, and no inode is locked.
  pub record IsTree (root : ℕ) (es : List Entry) (w : World K) : Type 0 where
    pub shows : AllShow w es
    pub absent : (p : ℕ) (s : String) → Absent p s es → (w.dentries (child p s)).d_inode ≡ none
    pub rooted : (i : ℕ) × ((w.dentries root).d_inode ≡ some i)
    pub in_use : (d i : ℕ) → (w.dentries d).d_inode ≡ some i → used w.kernel i ≡ true
    pub unlocked : (j : ℕ) → w.locked j ≡ false

  module _ {d i n mode : ℕ} {fop : OpsTable} {w w' : World K}
      (s : Added v laws cache d i n mode fop w w') where
    -- An entry that had an inode keeps it.
    keeps :
        (a j : ℕ)
        → (w.dentries d).d_inode ≡ none
        → (w.dentries a).d_inode ≡ some j
        → (w'.dentries a).d_inode ≡ some j
    keeps a j free e = s.entries a ∙ ground arith

    Shows-Added :
        (e : Entry)
        → (w.dentries d).d_inode ≡ none
        → ((b j : ℕ) → (w.dentries b).d_inode ≡ some j → used w.kernel j ≡ true)
        → Shows w e
        → Shows w' e
    Shows-Added e free in_use old =
        let j = old.inode in
        let other : i ≢ j = λ same. absurd (cc (s.fresh, in_use (child e.dir e.name) j old.here)) in
        record {
          inode = j;
          here = keeps (child e.dir e.name) j free old.here;
          held = omega (arith, old.held, s.holds (child e.dir e.name));
          attributes =
              ((s.others j other).0 ∙ old.attributes.0, (s.others j other).1 ∙ old.attributes.1);
        }

    AllShow-Added :
        (es : List Entry)
        → (w.dentries d).d_inode ≡ none
        → ((b j : ℕ) → (w.dentries b).d_inode ≡ some j → used w.kernel j ≡ true)
        → AllShow w es
        → AllShow w' es
    AllShow-Added [] free in_use all = tt
    AllShow-Added (e ∷ es) free in_use all =
        (Shows-Added e free in_use all.0, AllShow-Added es free in_use all.1)

    in_use-Added :
        ((b j : ℕ) → (w.dentries b).d_inode ≡ some j → used w.kernel j ≡ true)
        → (b j : ℕ) → (w'.dentries b).d_inode ≡ some j
        → used w'.kernel j ≡ true
    in_use-Added in_use b j e = ground (arith, s.entries b, s.taken j, in_use b j)

  -- A free name of a tree, and the memory behind its creation.
  pub IsTree-Added :
      {root i mode : ℕ} {fop : OpsTable} {w w' : World K} (es : List Entry) (p : ℕ) (name : String)
      → IsTree root es w
      → Absent p name es
      → Added v laws cache (child p name) i 2 mode fop w w'
      → ((j : ℕ) → w'.locked j ≡ w.locked j)
      → IsTree root (record { dir = p; name = name; mode = mode; fop = fop } ∷ es) w'
  IsTree-Added {root} {i} {w} {w'} es p name tree new s locks =
      let free = tree.absent p name new in
      record {
        shows = (
          record {
            inode = i;
            here = s.entries (child p name) ∙ ground arith;
            held = omega (arith, s.counted);
            attributes = s.node;
          },
          AllShow-Added s es free tree.in_use tree.shows,
        );
        absent = λ q t away.
            let apart : child p name ≢ child q t = λ same. elim away.0 [
              | inl ne ↦ ne (sym (cache.child_parent p q name t same))
              | inr ne ↦ ne (sym (cache.child_name p q name t same))
            ] in
            s.entries (child q t) ∙ ground (arith, tree.absent q t away.1);
        rooted = (tree.rooted.0, keeps s root tree.rooted.0 free tree.rooted.1);
        in_use = in_use-Added s tree.in_use;
        unlocked = λ j. locks j ∙ tree.unlocked j;
      }
