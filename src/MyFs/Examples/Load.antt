-- ===== src/MyFs/Examples/Load.antt =====
-- A load of course_design/myfs_kernel.c on the small kernel, with an entry for every name.
use Prim.Native.Nat.{suc}
use Prim.Native.String.{String}
use grade15_1linux.Common.{
  ℕ, ◌+◌, ◌≡◌, refl, ap, false, Option, none, some, arith, ℤ, pos, is_nonzero, if◌then◌else◌, ltb,
}
use grade15_1linux.MyFs.{
  World, Vfs, update, FillSuper, FileSystemType, Slot, null, found, err_ptr, MountPtr, no_mount,
  mounted, mount_error,
}
use grade15_1linux.MyFs.Nodes.Laws.{VfsLaws}
use grade15_1linux.MyFs.Tree.{myfs_init}
use grade15_1linux.MyFs.Tree.Dcache.{DcacheLaws}
use grade15_1linux.MyFs.Tree.Entries.{IsTree}
use grade15_1linux.MyFs.Tree.Build.{course_tree}
use grade15_1linux.MyFs.Tree.Mounting.{Calm, Rooted, MountLaws, IsBlank}
use grade15_1linux.MyFs.Tree.Loaded.{myfs_init-IsTree}
use grade15_1linux.MyFs.Examples.Names.{pair, number, pair_inj, number_inj}
use grade15_1linux.MyFs.Examples.{slotted, slotted-VfsLaws, blank}

-- Every name has an entry of its own behind the root's.
unfoldable slot : String → ℕ → ℕ
unfolding pair
slot s p = suc (suc (pair p (number s)))

-- Every super block has the entry 1 as its root.
abbrev fill_super : ℕ → World ℕ → ℤ × World ℕ
fill_super sb w = (
  pos 0,
  record w {
    dentries = update w.dentries 1 (record { d_inode = some w.kernel; d_count = 1 });
    kernel = w.kernel + 1;
  },
)

abbrev single : Option ℕ → FillSuper ℕ → World ℕ → Slot × World ℕ
single content fill w =
    let (code, w') = fill 9 content false w in
    (if is_nonzero code then err_ptr code else found 1, w')

abbrev pointer : Slot → MountPtr
pointer null = no_mount
pointer (found d) = mounted (record { s_root = some d })
pointer (err_ptr e) = mount_error e

abbrev kern : FileSystemType ℕ → World ℕ → MountPtr × World ℕ
kern fs w = let (root, w') = fs.mount fs.name 0 "none" none w in (pointer root, w')

abbrev filing : Vfs ℕ
filing = slotted slot (pos 0) fill_super single kern

filing-VfsLaws : VfsLaws filing
filing-VfsLaws = slotted-VfsLaws slot (pos 0) fill_super single kern

slot_inj : (p q : ℕ) (s t : String) → slot s p ≡ slot t q → (p ≡ q) × (s ≡ t)
unfolding slot
slot_inj p q s t e =
    let (dir, name) = pair_inj p (number s) q (number t) (omega (arith, e)) in
    (dir, number_inj s t name)

filing-DcacheLaws : DcacheLaws filing
filing-DcacheLaws = record {
  child = λ p s. slot s p;
  used = λ next i. ltb i next;
  child_parent = λ p q s t e. (slot_inj p q s t e).0;
  child_name = λ p q s t e. (slot_inj p q s t e).1;
  lookup_found = λ s p w. refl;
  lookup_inode = λ s p d w. ground arith;
  lookup_reference = λ s p w. ground arith;
  lookup_holds = λ s p d w. ground arith;
  new_unused = λ sb i w e. ground arith;
  new_used = λ sb i j w e. ground arith;
  lookup_used = λ s p j w. refl;
  lock_used = λ i j w. refl;
  unlock_used = λ i j w. refl;
  link_used = λ i j w. refl;
  instantiate_used = λ d i j w. refl;
  dget_used = λ d j w. refl;
}

still : (w : World ℕ) → Calm filing filing-VfsLaws filing-DcacheLaws w w
still w = record { same_dentries = refl; same_locks = refl; same_used = λ j. refl }

fill_super-Rooted :
    (sb : ℕ) (w : World ℕ)
    → Rooted filing filing-VfsLaws filing-DcacheLaws (λ k sb. some 1) sb w (fill_super sb w).1
unfolding filing-DcacheLaws slot
fill_super-Rooted sb w = record {
  root = 1;
  inode = w.kernel;
  is_root = refl;
  here = ground arith;
  apart = λ p s e. omega (arith, e);
  others = λ a ne. ground arith;
  taken = ground arith;
  unlocked = refl;
}

filing-MountLaws : MountLaws filing filing-VfsLaws filing-DcacheLaws
filing-MountLaws = record {
  s_root = λ k sb. some 1;
  register_calm = λ w ok. still w;
  fill_done = λ sb magic file files w last. refl;
  fill_rooted = λ sb magic file files w last. fill_super-Rooted sb w;
  mount_single_calls = λ fs flags content fill w. record {
    sb = 9;
    silent = false;
    before = w;
    calm = still w;
    result = λ root ok is_root. (simp ok (cc), still (fill 9 content false w).1);
  };
  kern_mount_calls = λ fs w. record {
    flags = 0;
    device = "none";
    content = none;
    before = w;
    calm = still w;
    result = λ root ok. (ap pointer ok, still (fs.mount fs.name 0 "none" none w).1);
  };
}

abbrev blank_world : World ℕ
blank_world = record {
  inodes = λ i. blank;
  dentries = λ d. record { d_inode = none; d_count = 0 };
  locked = λ i. false;
  kernel = 2;
}

blank_world-IsBlank : IsBlank filing filing-VfsLaws filing-DcacheLaws blank_world
blank_world-IsBlank = record { no_inode = λ d. refl; no_lock = λ j. refl }

myfs_init-IsTree_example :
    (root : ℕ) × (w' : World ℕ) × (myfs_init filing no_mount blank_world
      ≡ some ((pos 0, mounted (record { s_root = some root })), w'))
    × IsTree filing filing-VfsLaws filing-DcacheLaws root
        (course_tree filing-DcacheLaws.child root 0o100644 0o100444)
        w'
myfs_init-IsTree_example =
    myfs_init-IsTree filing filing-VfsLaws filing-DcacheLaws (λ sb w. (w.kernel, refl))
      filing-MountLaws no_mount blank_world refl blank_world-IsBlank
