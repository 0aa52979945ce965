-- ===== src/MyFs/Tree/Unload.antt =====
-- course_design/myfs_kernel.c: the exit of the module, after a load that mounted its file system and after
-- one that did not.
use grade15_1linux.Common.{
  ◌≡◌, refl, Bool, true, false, if◌then◌else◌, none, some, ℤ, pos, negsuc, zero, suc,
}
use grade15_1linux.MyFs.{World, Vfs, Mount, MountPtr, no_mount, mounted, mount_error}
use grade15_1linux.MyFs.Tree.{M, ◌>>=◌, my_fs_type, myfs_init, myfs_exit}
use grade15_1linux.MyFs.Tree.ByName.{bind_some}
use grade15_1linux.MyFs.Tree.Load.{myfs_init_mount_fails}

abbrev pub predecessor : ℤ → ℤ
predecessor (pos zero) = negsuc 0
predecessor (pos (suc n)) = pos n
predecessor (negsuc n) = negsuc (suc n)

abbrev pub is_zero : ℤ → Bool
is_zero (pos zero) = true
is_zero _ = false

-- The documented behaviour of `simple_release_fs`: it counts down, clears the pointer when the count has
-- come to 0, and gives the mount back, where an error pointer is followed, which is a fault.
pub record ReleaseLaws {K : Type 0} (v : Vfs K) : Type 0 where
  pub release_mounted :
      (t : Mount) (count : ℤ) (w : World K)
      → (w' : World K) × (v.simple_release_fs (mounted t) count w
          ≡ some (
            (if is_zero (predecessor count) then no_mount else mounted t, predecessor count),
            w',
          ))
  pub release_error :
      (e count : ℤ) (w : World K) → v.simple_release_fs (mount_error e) count w ≡ none

bind_none :
    {K A B : Type 0} (m : M K A) (f : A → M K B) (w : World K) → m w ≡ none → (m >>= f) w ≡ none
bind_none m f w e = rw (e, ◌>>=◌) refl

module _ {K : Type 0} (v : Vfs K) (laws : ReleaseLaws v) where
  -- From the counter's first value, which the module never changes, the exit gives the mount back and
  -- leaves -1 in the counter and its pointer as it was.
  myfs_exit_mounted :
      (t : Mount) (w : World K)
      → (w' : World K) × (myfs_exit v (mounted t) (pos 0) w ≡ some ((mounted t, negsuc 0), w'))
  unfolding myfs_exit
  myfs_exit_mounted t w =
      let (w', e) = laws.release_mounted t (pos 0) w in
      (v.unregister_filesystem w', bind_some (v.simple_release_fs (mounted t) (pos 0)) _ w e)

  -- After a registration that succeeds and a mount that fails with `e`, the load of the module succeeds
  -- with the value 0, and the exit from the state that it leaves, with the counter still at 0, faults.
  pub myfs_exit-myfs_init :
      (e : ℤ) (m : MountPtr) (w : World K)
      → (v.register_filesystem w).0 ≡ pos 0
      → (v.kern_mount (my_fs_type v) (v.register_filesystem w).1).0 ≡ mount_error e
      → (w' : World K) × (myfs_init v m w ≡ some ((pos 0, mount_error e), w'))
        × (myfs_exit v (mount_error e) (pos 0) w' ≡ none)
  unfolding myfs_exit
  myfs_exit-myfs_init e m w registered failed =
      let w' =
        v.unregister_filesystem (v.kern_mount (my_fs_type v) (v.register_filesystem w).1).1 in
      (
        w',
        myfs_init_mount_fails v e m w registered failed,
        bind_none (v.simple_release_fs (mount_error e) (pos 0)) _ w'
            (laws.release_error e (pos 0) w'),
      )
