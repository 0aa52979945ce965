-- ===== src/MyFs/Tree.antt =====
-- course_design/myfs_kernel.c: files and directories by name, the module's entry and exit. ByName is
-- about the creation by name, Load about the value of the entry; Dcache, Added, Creation, Filed, Entries
-- and Build about the tree that a load leaves.
pub mod ByName
pub mod Load
pub mod Dcache
pub mod Added
pub mod Creation
pub mod Filed
pub mod Entries
pub mod Build
pub mod Mounting
pub mod Loaded
pub mod Unload
use Prim.Native.Nat.{bit_and, bit_or}
use Prim.Native.String.{String}
use grade15_1linux.Common.{
  ℕ, ◌+◌, ◌≡◌, Bool, true, false, Option, none, some, ℤ, pos, efault, is_nonzero, ◌==◌,
  if◌then◌else◌, List, [], ◌∷◌,
}
use grade15_1linux.MyFs.{
  OpsTable, myfs_file_operations, Inode, Dentry, World, Vfs, update, Slot, null, found, err_ptr,
  Mount, MountPtr, no_mount, mounted, mount_error, TreeDescr, FillSuper, FileSystemType,
  kill_litter_super,
}
use grade15_1linux.MyFs.Nodes.{myfs_mkdir, myfs_creat, set_inode, s_ifmt, s_ifreg, s_ifdir}

-- A function of the module over the kernel's memory: `none` is an access through a pointer that is
-- null or an error.
abbrev pub M : Type 0 → Type 0 → Type 0
M K A = World K → Option (A × World K)

infixl 5 ◌>>=◌ ◌>>◌
abbrev pub ◌>>=◌ : {K A B : Type 0} → M K A → (A → M K B) → M K B
◌>>=◌ m f w = elim (m w) [ none ↦ none | some (a, w') ↦ f a w' ]

abbrev pub ◌>>◌ : {K A B : Type 0} → M K A → M K B → M K B
m >> k = m >>= λ _. k

abbrev pub pure : {K A : Type 0} → A → M K A
pure a w = some (a, w)

-- The permissions of the kernel's headers.
abbrev pub s_irwxu : ℕ
s_irwxu = 0o700

abbrev pub s_irugo : ℕ
s_irugo = 0o444

abbrev pub s_iwusr : ℕ
s_iwusr = 0o200

abbrev pub s_iwugo : ℕ
s_iwugo = 0o222

-- The value of `myfs_creat_by_name` and what it leaves in `*dentry`.
pub record Created : Type 0 where
  pub error : ℤ
  pub slot : Slot

-- `if (!parent) …`: the root of the mount. An error pointer is followed, which is a fault.
pub default_parent : {K : Type 0} → MountPtr → Option ℕ → M K (Option ℕ)
default_parent m (some p) w = some (some p, w)
default_parent no_mount none w = some (none, w)
default_parent (mounted m) none w = some (m.s_root, w)
default_parent (mount_error e) none w = none

-- The inode of a directory entry, for a use that a null pointer does not survive.
pub d_inode : {K : Type 0} → ℕ → M K ℕ
d_inode p w = elim (w.dentries p).d_inode [ none ↦ none | some i ↦ some (i, w) ]

abbrev pub call : {K A : Type 0} → (World K → A × World K) → M K A
call f w = some (f w)

abbrev pub act : {K : Type 0} → (World K → World K) → M K (Unit {0})
act f w = some (tt, f w)

-- `if (IS_ERR(*dentry)) error = PTR_ERR(*dentry);`
abbrev pub final_error : Slot → ℤ → ℤ
final_error (err_ptr e) _ = e
final_error _ error = error

-- The end of `myfs_creat_file`: data and operations for the inode of the new entry.
abbrev pub attach_data : Option ℕ → Inode → Inode
attach_data none node = node
attach_data (some p) node = record node { i_private = p }

abbrev pub attach_fops : Option OpsTable → Inode → Inode
attach_fops none node = node
attach_fops (some t) node = record node { i_fop = t }

pub attach : {K : Type 0} → Slot → Option ℕ → Option OpsTable → M K (Option ℕ)
attach null content fops w = none
attach (err_ptr e) content fops w = none
attach (found d) content fops w = elim (w.dentries d).d_inode [
  | none ↦ some (some d, w)
  | some i ↦ some (some d, set_inode i (attach_fops fops (attach_data content (w.inodes i))) w)
]

abbrev pub myfs_magic : ℕ
myfs_magic = 0x64668735

-- The table ends with an empty name: there are no files in it.
abbrev pub debug_files : List TreeDescr
debug_files = record { name = ""; ops = none; mode = 0 } ∷ []

module _ {K : Type 0} (v : Vfs K) where
  unfoldable pub myfs_fill_super : FillSuper K
  myfs_fill_super sb content silent = v.simple_fill_super sb myfs_magic debug_files

  unfoldable pub myfs_get_sb : String → ℕ → String → Option ℕ → World K → Slot × World K
  myfs_get_sb fs_type flags dev_name content = v.mount_single fs_type flags content myfs_fill_super

  abbrev pub my_fs_type : FileSystemType K
  my_fs_type = record { name = "myfs"; mount = myfs_get_sb; kill_sb = kill_litter_super }

  -- The two branches under `if (!IS_ERR(*dentry))`.
  pub make : Slot → ℕ → ℕ → M K ℤ
  unfolding d_inode
  make null mode p w = none
  make (err_ptr e) mode p w = some (pos 0, w)
  make (found d) mode p w =
      (do
        dir ← d_inode p
        if bit_and mode s_ifmt == s_ifdir
            then call (myfs_mkdir v dir d mode)
            else call (myfs_creat v dir d mode))
        w

  pub creat_in : String → ℕ → ℕ → M K Created
  unfolding make
  creat_in name mode p = do
    dir ← d_inode p
    act (v.inode_lock dir)
    slot ← call (v.lookup_one_len name p)
    error ← make slot mode p
    dir' ← d_inode p
    act (v.inode_unlock dir')
    pure (record { error = final_error slot error; slot = slot })

  pub myfs_creat_by_name : String → ℕ → MountPtr → Option ℕ → Slot → M K Created
  unfolding creat_in default_parent
  myfs_creat_by_name name mode m parent out w =
      (do
        parent' ← default_parent m parent
        elim parent' [
          | none ↦ pure (record { error = efault; slot = out })
          | some p ↦ creat_in name mode p
        ])
        w

  -- The result is `none` for NULL.
  pub myfs_creat_file :
      String → ℕ → MountPtr → Option ℕ → Option ℕ → Option OpsTable → M K (Option ℕ)
  unfolding myfs_creat_by_name attach
  myfs_creat_file name mode m parent content fops = do
    r ← myfs_creat_by_name name mode m parent null
    if is_nonzero r.error then pure none else attach r.slot content fops

  pub myfs_creat_dir : String → MountPtr → Option ℕ → M K (Option ℕ)
  unfolding myfs_creat_file
  myfs_creat_dir name m parent =
      myfs_creat_file name (bit_or (bit_or s_ifdir s_irwxu) s_irugo) m parent none none

  -- The two directories and the four files; the modes of First/one and First/two are those of the
  -- program's version.
  unfoldable pub populate : ℕ → ℕ → MountPtr → M K (Unit {0})
  unfolding myfs_creat_dir
  populate mode_one mode_two m = do
    first ← myfs_creat_dir "First" m none
    myfs_creat_file "one" mode_one m first none (some myfs_file_operations)
    myfs_creat_file "two" mode_two m first none (some myfs_file_operations)
    second ← myfs_creat_dir "Second" m none
    myfs_creat_file "one" (bit_or (bit_or s_ifreg s_irugo) s_iwusr) m second none
        (some myfs_file_operations)
    myfs_creat_file "two" (bit_or (bit_or s_ifreg s_irugo) s_iwusr) m second none
        (some myfs_file_operations)
    pure tt

  -- The code behind `kern_mount`: if it failed, `retval` is still the 0 of the registration.
  pub after_mount : ℕ → ℕ → ℤ → MountPtr → M K (ℤ × MountPtr)
  after_mount mode_one mode_two retval (mount_error e) = do
    act v.unregister_filesystem
    pure (retval, mount_error e)
  after_mount mode_one mode_two retval m = do populate mode_one mode_two m; pure (retval, m)

  -- The entry of the module, from the value of `myfs_mount` on: the value returned, and the new
  -- value of the variable.
  pub load : ℕ → ℕ → MountPtr → M K (ℤ × MountPtr)
  load mode_one mode_two m = do
    retval ← call v.register_filesystem
    if is_nonzero retval
        then (do populate mode_one mode_two m; pure (retval, m))
        else (do m' ← call (v.kern_mount my_fs_type); after_mount mode_one mode_two retval m')

  pub myfs_init : MountPtr → M K (ℤ × MountPtr)
  myfs_init = load (bit_or (bit_or s_ifreg s_irugo) s_iwusr) (bit_or s_ifreg s_irugo)

  -- The entry in course_design/myfs_kernel_ubuntu.c.
  pub myfs_init_ubuntu : MountPtr → M K (ℤ × MountPtr)
  myfs_init_ubuntu =
      load (bit_or (bit_or s_ifreg s_irugo) s_iwugo) (bit_or (bit_or s_ifreg s_irugo) s_iwusr)

  -- The exit, from `myfs_mount` and `myfs_mount_count`, with their new values.
  unfoldable pub myfs_exit : MountPtr → ℤ → M K (MountPtr × ℤ)
  myfs_exit m count = do r ← v.simple_release_fs m count; act v.unregister_filesystem; pure r
