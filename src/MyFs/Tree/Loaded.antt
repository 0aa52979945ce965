-- ===== src/MyFs/Tree/Loaded.antt =====
-- course_design/myfs_kernel.c and course_design/myfs_kernel_ubuntu.c: the whole load of the module, from
-- the registration and the mount on.
use grade15_1linux.Common.{ℕ, ◌≡◌, ap, refl, some, pos}
use grade15_1linux.MyFs.{World, Vfs, MountPtr, mounted}
use grade15_1linux.MyFs.Nodes.Laws.{VfsLaws}
use grade15_1linux.MyFs.Tree.{load, my_fs_type, myfs_init, myfs_init_ubuntu}
use grade15_1linux.MyFs.Tree.Dcache.{DcacheLaws, HasMemory}
use grade15_1linux.MyFs.Tree.Entries.{IsTree}
use grade15_1linux.MyFs.Tree.Build.{IsFileMode, course_mode, course_tree, load-IsTree}
use grade15_1linux.MyFs.Tree.Mounting.{MountLaws, IsBlank, Calm-IsBlank, mount-IsTree}

module _ {K : Type 0} (v : Vfs K) (laws : VfsLaws v) (cache : DcacheLaws v) (memory : HasMemory v)
    (mounts : MountLaws v laws cache) (m : MountPtr) (w : World K)
    (registered : (v.register_filesystem w).0 ≡ pos 0) (blank : IsBlank v laws cache w) where
  loaded :
      (mode_one mode_two : ℕ)
      → IsFileMode mode_one
      → IsFileMode mode_two
      → (root : ℕ) × (w' : World K) × (load v mode_one mode_two m w
          ≡ some ((pos 0, mounted (record { s_root = some root })), w'))
        × IsTree v laws cache root (course_tree cache.child root mode_one mode_two) w'
  loaded mode_one mode_two is_one is_two =
      let w1 = (v.register_filesystem w).1 in
      let calm = mounts.register_calm w registered in
      let (root, (result, tree)) =
        mount-IsTree v laws cache mounts w1 (Calm-IsBlank v laws cache calm blank) in
      let w2 = (v.kern_mount (my_fs_type v) w1).1 in
      let (w', made, whole) =
        load-IsTree v laws cache memory root m w w2 registered (ap (λ r. (r, w2)) result) tree
          mode_one mode_two is_one is_two in
      (root, w', made, whole)

  -- After a registration that succeeds, on a memory without files, and with memory for the mount and for
  -- every inode: `myfs_init` returns 0 with its file system mounted, and the tree under its root is then
  -- exactly the directories First and Second, with mode 744 and a directory's operations, and in each
  -- the files one and two with the operations of the module, of mode 644, but First/two of mode 444. To the
  -- directory entry of each of the six at least two references are held. Every other name is free,
  -- and no inode is locked.
  pub myfs_init-IsTree :
      (root : ℕ) × (w' : World K) × (myfs_init v m w
        ≡ some ((pos 0, mounted (record { s_root = some root })), w'))
      × IsTree v laws cache root (course_tree cache.child root 0o100644 0o100444) w'
  unfolding myfs_init
  myfs_init-IsTree =
      loaded 0o100644 0o100444 course_mode (record { no_dir = refl; regular = refl; stored = refl })

  -- The same of the version of course_design/myfs_kernel_ubuntu.c, where First/one has mode 666 and
  -- First/two mode 644.
  pub myfs_init_ubuntu-IsTree :
      (root : ℕ) × (w' : World K) × (myfs_init_ubuntu v m w
        ≡ some ((pos 0, mounted (record { s_root = some root })), w'))
      × IsTree v laws cache root (course_tree cache.child root 0o100666 0o100644) w'
  unfolding myfs_init_ubuntu
  myfs_init_ubuntu-IsTree =
      loaded 0o100666 0o100644 (record { no_dir = refl; regular = refl; stored = refl }) course_mode
