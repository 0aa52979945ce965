-- ===== src/MyFs/Examples.antt =====
-- A small kernel that meets the laws, runs of course_design/myfs_kernel.c over it, and instances of
-- the theorems.
mod Names
mod Load
mod Files
use Prim.Native.Nat.{suc, bit_or}
use Prim.Native.String.{String}
use grade15_1linux.Common.{
  ℕ, ◌+◌, ◌-◌, ◌%◌, ◌^◌, ◌≡◌, ◌≢◌, ◌↔◌, ◌⊎◌, refl, true, false, if◌then◌else◌, Option, none, some,
  arith, List, [], ◌∷◌, ◌++◌, Bytes, length, take, drop, min, ℤ, pos, eacces, enomem, inl, inr,
  replicate, ltb,
}
use grade15_1linux.MyFs.{
  simple_dir_inode_operations, simple_dir_operations, other_operations, Inode, World, Vfs, update,
  Slot, FillSuper, FileSystemType, null, found, MountPtr, no_mount, mounted, mount_error,
}
use grade15_1linux.MyFs.Nodes.{s_ifreg, vmacache_size, myfs_mknod, myfs_mkdir, myfs_creat}
use grade15_1linux.MyFs.Nodes.Laws.{VfsLaws, linked}
use grade15_1linux.MyFs.Nodes.Create.Outcome.{Mknod, myfs_mknod-Mknod}
use grade15_1linux.MyFs.Nodes.Create.Made.{myfs_mkdir_made, myfs_creat_made}
use grade15_1linux.MyFs.Tree.{Created, myfs_creat_by_name, myfs_init, myfs_exit}
use grade15_1linux.MyFs.Tree.Unload.{predecessor, is_zero, ReleaseLaws, myfs_exit-myfs_init}
use grade15_1linux.MyFs.Tree.ByName.{myfs_creat_by_name_unlocks}
use grade15_1linux.MyFs.Tree.Load.{myfs_init-code, myfs_init_mount_fails}
use grade15_1linux.MyFs.Tree.Dcache.{DcacheLaws}
use grade15_1linux.MyFs.Tree.Entries.{IsTree}
use grade15_1linux.MyFs.Tree.Build.{course_tree}
use grade15_1linux.MyFs.Examples.Names.{pair, number, pair_inj, number_inj}
use grade15_1linux.MyFs.Fifo.{Kfifo, FifoLaws}
use grade15_1linux.MyFs.Fifo.Queue.{Op, read, write, queue_run, received, sent}
use grade15_1linux.MyFs.File.{
  myfs_file_open_ubuntu, myfs_file_release, MyfsFileInfo, OpenCalls, myfs_file_open,
}
use grade15_1linux.MyFs.File.Access.{myfs_file_open_inverted}
use grade15_1linux.MyFs.File.Session.{run, Reliable, run-queue, run_order}

-- What the exit's call of `simple_release_fs` does.
abbrev release : MountPtr → ℤ → World ℕ → Option ((MountPtr × ℤ) × World ℕ)
release no_mount count w = some ((no_mount, predecessor count), w)
release (mounted t) count w =
    some ((if is_zero (predecessor count) then no_mount else mounted t, predecessor count), w)
release (mount_error e) count w = none

-- Its own state is the next free address; a lookup gives the entry that `slot` has for the name, with a
-- reference.
abbrev slotted :
    (String → ℕ → ℕ)
    → ℤ
    → (ℕ → World ℕ → ℤ × World ℕ)
    → (Option ℕ → FillSuper ℕ → World ℕ → Slot × World ℕ)
    → (FileSystemType ℕ → World ℕ → MountPtr × World ℕ)
    → Vfs ℕ
slotted slot registered fill_super single kern = record {
  new_inode = λ sb w. (
    some w.kernel,
    record w {
      inodes = update w.inodes w.kernel (linked 1 (w.inodes w.kernel));
      kernel = w.kernel + 1;
    },
  );
  current_fsuid = λ w. 1000;
  current_fsgid = λ w. 1000;
  current_time = λ i w. 5;
  init_special_inode = λ i mode dev w. w;
  inc_nlink = λ i w. record w {
    inodes = update w.inodes i (linked ((w.inodes i).i_nlink + 1) (w.inodes i));
  };
  d_instantiate = λ d i w. record w {
    dentries = update w.dentries d (record { d_inode = some i; d_count = (w.dentries d).d_count });
  };
  dget = λ d w. record w {
    dentries =
        update w.dentries d
          (record { d_inode = (w.dentries d).d_inode; d_count = (w.dentries d).d_count + 1 });
  };
  inode_lock = λ i w. record w { locked = update w.locked i true };
  inode_unlock = λ i w. record w { locked = update w.locked i false };
  lookup_one_len = λ s p w. (
    found (slot s p),
    record w {
      dentries = update w.dentries (slot s p) (record {
        d_inode = (w.dentries (slot s p)).d_inode;
        d_count = (w.dentries (slot s p)).d_count + 1;
      });
    },
  );
  register_filesystem = λ w. (registered, w);
  unregister_filesystem = λ w. w;
  simple_fill_super = λ sb magic files w. fill_super sb w;
  mount_single = λ fs flags content fill w. single content fill w;
  kern_mount = kern;
  simple_release_fs = release;
}

slotted-VfsLaws :
    (slot : String → ℕ → ℕ) (registered : ℤ) (fill_super : ℕ → World ℕ → ℤ × World ℕ)
    (single : Option ℕ → FillSuper ℕ → World ℕ → Slot × World ℕ)
    (kern : FileSystemType ℕ → World ℕ → MountPtr × World ℕ)
    → VfsLaws (slotted slot registered fill_super single kern)
slotted-VfsLaws slot registered fill_super single kern = record {
  new_nlink = λ sb i w e. ground arith;
  new_inodes = λ sb j w ne. ground arith;
  new_dentries = λ sb w. refl;
  new_locked = λ sb w. refl;
  link_inodes = λ i w. refl;
  link_dentries = λ i w. refl;
  link_locked = λ i w. refl;
  special_nlink = λ i mode dev w. refl;
  special_inodes = λ i mode dev j w ne. refl;
  special_dentries = λ i mode dev w. refl;
  special_locked = λ i mode dev w. refl;
  instantiate_dentries = λ d i w. refl;
  instantiate_inodes = λ d i w. refl;
  instantiate_locked = λ d i w. refl;
  dget_dentries = λ d w. refl;
  dget_inodes = λ d w. refl;
  dget_locked = λ d w. refl;
  lock_locked = λ i w. refl;
  lock_inodes = λ i w. refl;
  lock_dentries = λ i w. refl;
  unlock_locked = λ i w. refl;
  unlock_inodes = λ i w. refl;
  unlock_dentries = λ i w. refl;
  lookup_inodes = λ s p w. refl;
  lookup_locked = λ s p w. refl;
  lookup_positive = λ s p d i w e. ground arith;
}

-- Every lookup gives the entry 7.
abbrev plain : ℤ → MountPtr → Vfs ℕ
plain registered mount =
    slotted (λ s p. 7) registered (λ sb w. (pos 0, w)) (λ content fill w. (null, w))
      (λ fs w. (mount, w))

plain-VfsLaws : (registered : ℤ) (mount : MountPtr) → VfsLaws (plain registered mount)
plain-VfsLaws registered mount =
    slotted-VfsLaws (λ s p. 7) registered (λ sb w. (pos 0, w)) (λ content fill w. (null, w))
      (λ fs w. (mount, w))

abbrev blank : Inode
blank = record {
  i_mode = 0;
  i_uid = 0;
  i_gid = 0;
  i_size = 0;
  i_blocks = 0;
  i_atime = 0;
  i_mtime = 0;
  i_ctime = 0;
  i_nlink = 2;
  i_sb = 9;
  i_private = 0;
  i_op = other_operations 0;
  i_fop = other_operations 0;
}

-- The root is entry 1 with inode 1; all other entries are negative.
abbrev root : World ℕ
root = record {
  inodes = λ i. blank;
  dentries =
      update (λ d. record { d_inode = none; d_count = 0 }) 1
        (record { d_inode = some 1; d_count = 1 });
  locked = λ i. false;
  kernel = 2;
}

abbrev working : Vfs ℕ
working = plain (pos 0) (mounted (record { s_root = some 1 }))

working-VfsLaws : VfsLaws working
working-VfsLaws = plain-VfsLaws (pos 0) (mounted (record { s_root = some 1 }))

myfs_mknod-Mknod_example : Mknod working 1 7 root (myfs_mknod working 1 7 s_ifreg 0 root)
myfs_mknod-Mknod_example = myfs_mknod-Mknod working working-VfsLaws 1 7 s_ifreg 0 root

myfs_mkdir_made_example :
    let (res, w') = myfs_mkdir working 1 7 0o755 root in
    (res ≡ pos 0)
    × ((w'.inodes 1).i_nlink ≡ 2 + 1)
    × ((w'.inodes 2).i_nlink ≡ 2)
    × ((w'.inodes 2).i_op ≡ simple_dir_inode_operations)
    × ((w'.inodes 2).i_fop ≡ simple_dir_operations)
    × ((w'.dentries 7).d_inode ≡ some 2)
    × ((j : ℕ) → 2 ≢ j → 1 ≢ j → w'.inodes j ≡ blank)
myfs_mkdir_made_example =
    myfs_mkdir_made working working-VfsLaws 1 7 0o755 2 root refl refl (omega arith)
      (omega arith, inl refl)

myfs_creat_by_name_unlocks_example :
    (r : Created) × (w' : World ℕ) × (myfs_creat_by_name working "First" 0o040755 no_mount
        (some 1)
        null
        root
      ≡ some (r, w'))
    × ((j : ℕ) → w'.locked j ≡ false)
myfs_creat_by_name_unlocks_example =
    myfs_creat_by_name_unlocks working working-VfsLaws "First" 0o040755 1 1 no_mount null root refl
      refl (λ e. cc)

mount_undone :
    myfs_init (plain (pos 0) (mount_error enomem)) no_mount root
    ≡ some ((pos 0, mount_error enomem), root)
mount_undone =
    myfs_init_mount_fails (plain (pos 0) (mount_error enomem)) enomem no_mount root refl refl

abbrev unmountable : Vfs ℕ
unmountable = plain (pos 0) (mount_error enomem)

unmountable-ReleaseLaws : ReleaseLaws unmountable
unmountable-ReleaseLaws = record {
  release_mounted = λ t count w. (w, refl);
  release_error = λ e count w. refl;
}

unload_faults :
    (w' : World ℕ) × (myfs_init unmountable no_mount root ≡ some ((pos 0, mount_error enomem), w'))
    × (myfs_exit unmountable (mount_error enomem) (pos 0) w' ≡ none)
unload_faults =
    myfs_exit-myfs_init unmountable unmountable-ReleaseLaws enomem no_mount root refl refl
