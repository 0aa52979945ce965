-- ===== src/MyFs/Tree/Build.antt =====
-- course_design/myfs_kernel.c: the tree that `myfs_init` builds on an empty one, where there is memory.
use Prim.Native.Nat.{bit_and, bit_or}
use Prim.Native.String.{String}
use text.Mathlib.Text.{◌==◌ as str_eq}
use text.Mathlib.TextEquality.{eq_iff}
use grade15_1linux.Common.{
  ℕ, subst, ◌%◌, ◌^◌, ◌≡◌, ◌≢◌, ◌∙◌, refl, false, Option, none, some, ◌==◌, List, [], ◌∷◌, inl, inr,
  pos,
}
use grade15_1linux.MyFs.{
  OpsTable, World, Vfs, MountPtr, mounted, simple_dir_operations, myfs_file_operations,
}
use grade15_1linux.MyFs.Nodes.{s_ifmt, s_ifreg, s_ifdir}
use grade15_1linux.MyFs.Nodes.Laws.{VfsLaws}
use grade15_1linux.MyFs.Tree.{
  default_parent, myfs_creat_file, myfs_creat_dir, populate, after_mount, load, my_fs_type,
}
use grade15_1linux.MyFs.Tree.ByName.{bind_some}
use grade15_1linux.MyFs.Tree.Dcache.{DcacheLaws, HasMemory}
use grade15_1linux.MyFs.Tree.Filed.{dir-Filed, file-Filed}
use grade15_1linux.MyFs.Tree.Entries.{Entry, Absent, IsTree, IsTree-Added}

abbrev pub entry : ℕ → String → ℕ → OpsTable → Entry
entry dir name mode fop = record { dir = dir; name = name; mode = mode; fop = fop }

-- The two directories and the four files, the last one first.
abbrev pub course_tree : (ℕ → String → ℕ) → ℕ → ℕ → ℕ → List Entry
course_tree child root mode_one mode_two =
    let first = child root "First" in
    let second = child root "Second" in
    entry second "two" 0o100644 myfs_file_operations
    ∷ entry second "one" 0o100644 myfs_file_operations
    ∷ entry root "Second" 0o040744 simple_dir_operations
    ∷ entry first "two" mode_two myfs_file_operations
    ∷ entry first "one" mode_one myfs_file_operations
    ∷ entry root "First" 0o040744 simple_dir_operations
    ∷ []

-- Names that differ by a test.
name_ne : (s t : String) → (str_eq s t ≡ false) → s ≢ t
name_ne s t differ same = absurd (cc (differ, (eq_iff s t).1 same))

-- The modes of a regular file: what `myfs_creat` stores for it is the mode itself.
pub record IsFileMode (mode : ℕ) : Type 0 where
  pub no_dir : (bit_and mode s_ifmt == s_ifdir) ≡ false
  pub regular : bit_and (bit_or mode s_ifreg) s_ifmt ≡ s_ifreg
  pub stored : bit_or mode s_ifreg % 2 ^ 16 ≡ mode

pub course_mode : IsFileMode 0o100644
course_mode = record { no_dir = refl; regular = refl; stored = refl }

module _ {K : Type 0} (v : Vfs K) (laws : VfsLaws v) (cache : DcacheLaws v)
    (memory : HasMemory v) where
  open cache use {child}

  -- A call that adds an entry to a tree.
  record Grown (root : ℕ) (e : Entry) (es : List Entry) (r : Option (Option ℕ × World K))
      : Type 0 where
    after : World K
    result : r ≡ some (some (child e.dir e.name), after)
    tree : IsTree v laws cache root (e ∷ es) after

  module _ (root p dir : ℕ) (name : String) (m : MountPtr) (parent : Option ℕ) (es : List Entry)
      (w : World K) (tree : IsTree v laws cache root es w)
      (in_p : default_parent m parent w ≡ some (some p, w)) (e : (w.dentries p).d_inode ≡ some dir)
      (new : Absent p name es) where
    dir-Grown :
        Grown root
          (entry p name 0o040744 simple_dir_operations)
          es
          (myfs_creat_dir v name m parent w)
    unfolding myfs_creat_dir
    dir-Grown =
        let f =
          dir-Filed v laws cache name 0o040744 p dir m parent w in_p e (tree.unlocked dir) memory
            (tree.absent p name new) none refl refl in
        record {
          after = f.after;
          result = f.result;
          tree = IsTree-Added v laws cache es p name tree new f.added f.locks;
        }

    file-Grown :
        (mode : ℕ)
        → IsFileMode mode
        → Grown root
            (entry p name mode myfs_file_operations)
            es
            (myfs_creat_file v name mode m parent none (some myfs_file_operations) w)
    file-Grown mode is =
        let f =
          file-Filed v laws cache name mode p dir m parent w in_p e (tree.unlocked dir) memory
            (tree.absent p name new) myfs_file_operations is.no_dir is.regular in
        let grown = IsTree-Added v laws cache es p name tree new f.added f.locks in
        record {
          after = f.after;
          result = f.result;
          tree =
              subst
                (λ stored.
                  IsTree v laws cache root (entry p name stored myfs_file_operations ∷ es) f.after)
                is.stored grown;
        }

  -- The calls of `myfs_init` from an empty tree on.
  populate-IsTree :
      (root mode_one mode_two : ℕ) (w : World K)
      → IsFileMode mode_one
      → IsFileMode mode_two
      → IsTree v laws cache root [] w
      → (w' : World K) × (populate v mode_one mode_two (mounted (record { s_root = some root })) w
          ≡ some (tt, w'))
        × IsTree v laws cache root (course_tree child root mode_one mode_two) w'
  unfolding populate default_parent
  populate-IsTree root mode_one mode_two w is_one is_two t =
      let m = mounted (record { s_root = some root }) in
      let first = child root "First" in
      let second = child root "Second" in
      let apart : second ≢ first =
        λ same. name_ne "Second" "First" refl (cache.child_name root root "Second" "First" same) in
      let a = dir-Grown root root t.rooted.0 "First" m none [] w t refl t.rooted.1 tt in
      let b =
        file-Grown root first a.tree.shows.0.inode "one" m (some first) _ a.after a.tree refl
          a.tree.shows.0.here (inr (name_ne "one" "First" refl), tt) mode_one is_one in
      let c =
        file-Grown root first b.tree.shows.1.0.inode "two" m (some first) _ b.after b.tree refl
          b.tree.shows.1.0.here
          (inr (name_ne "two" "one" refl), (inr (name_ne "two" "First" refl), tt)) mode_two
          is_two in
      let d =
        dir-Grown root root c.tree.rooted.0 "Second" m none _ c.after c.tree refl c.tree.rooted.1 (
          inr (name_ne "Second" "two" refl),
          (inr (name_ne "Second" "one" refl), (inr (name_ne "Second" "First" refl), tt)),
        ) in
      let e =
        file-Grown root second d.tree.shows.0.inode "one" m (some second) _ d.after d.tree refl
          d.tree.shows.0.here
          (
            inr (name_ne "one" "Second" refl),
            (inr (name_ne "one" "two" refl), (inl apart, (inr (name_ne "one" "First" refl), tt))),
          )
          0o100644 course_mode in
      let f =
        file-Grown root second e.tree.shows.1.0.inode "two" m (some second) _ e.after e.tree refl
          e.tree.shows.1.0.here
          (
            inr (name_ne "two" "one" refl),
            (
              inr (name_ne "two" "Second" refl),
              (inl apart, (inr (name_ne "two" "one" refl), (inr (name_ne "two" "First" refl), tt))),
            ),
          )
          0o100644 course_mode in
      let ops = some myfs_file_operations in
      (
        f.after,
        bind_some (myfs_creat_dir v "First" m none) _ w a.result
            ∙ bind_some (myfs_creat_file v "one" mode_one m (some first) none ops) _ a.after
                b.result
            ∙ bind_some (myfs_creat_file v "two" mode_two m (some first) none ops) _ b.after
                c.result
            ∙ bind_some (myfs_creat_dir v "Second" m none) _ c.after d.result
            ∙ bind_some (myfs_creat_file v "one" 0o100644 m (some second) none ops) _ d.after
                e.result
            ∙ bind_some (myfs_creat_file v "two" 0o100644 m (some second) none ops) _ e.after
                f.result,
        f.tree,
      )

  module _ (root : ℕ) (m : MountPtr) (w w1 : World K)
      (registered : (v.register_filesystem w).0 ≡ pos 0)
      (mount_ok : v.kern_mount (my_fs_type v) (v.register_filesystem w).1
        ≡ (mounted (record { s_root = some root }), w1))
      (empty : IsTree v laws cache root [] w1) where
    pub load-IsTree :
        (mode_one mode_two : ℕ)
        → IsFileMode mode_one
        → IsFileMode mode_two
        → (w' : World K) × (load v mode_one mode_two m w
            ≡ some ((pos 0, mounted (record { s_root = some root })), w'))
          × IsTree v laws cache root (course_tree child root mode_one mode_two) w'
    unfolding load after_mount
    load-IsTree mode_one mode_two is_one is_two =
        let (w', made, tree) = populate-IsTree root mode_one mode_two w1 is_one is_two empty in
        (
          w',
          simp (registered, mount_ok, after_mount)
              (bind_some (populate v mode_one mode_two (mounted (record { s_root = some root }))) _
                w1 made),
          tree,
        )
