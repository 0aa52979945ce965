-- ===== src/MyFs/Tree/Load.antt =====
-- course_design/myfs_kernel.c: what `myfs_init` reports.
use grade15_1linux.Common.{
  ℕ, ◌≡◌, ◌⊎◌, refl, Option, none, some, ℤ, pos, is_nonzero, Bool-cases, inl, inr,
}
use grade15_1linux.MyFs.{World, Vfs, MountPtr, mount_error}
use grade15_1linux.MyFs.Tree.{
  M, ◌>>=◌, populate, after_mount, load, myfs_init, myfs_init_ubuntu, my_fs_type,
}

bind_inv :
    {K A B : Type 0} (m : M K A) (f : A → M K B) (w : World K) (r : B × World K)
    → (m >>= f) w ≡ some r
    → (a : A) × (w' : World K) × (m w ≡ some (a, w')) × (f a w' ≡ some r)
bind_inv {K} {A} m f w r h = go (m w) refl h
  where
    go :
        (o : Option (A × World K))
        → m w ≡ o
        → elim o [ none ↦ none | some (a, w') ↦ f a w' ] ≡ some r
        → (a : A) × (w' : World K) × (m w ≡ some (a, w')) × (f a w' ≡ some r)
    go none e k = absurd (cc)
    go (some (a, w')) e k = (a, w', e, k)

module _ {K : Type 0} (v : Vfs K) where
  after_mount-code :
      (mode_one mode_two : ℕ) (retval code : ℤ) (m m' : MountPtr) (w w' : World K)
      → after_mount v mode_one mode_two retval m w ≡ some ((code, m'), w')
      → code ≡ retval
  unfolding after_mount
  after_mount-code mode_one mode_two retval code (mount_error e) m' w w' h = cc
  after_mount-code mode_one mode_two retval code m m' w w' h =
      let (a, w1, e, k) = bind_inv (populate v mode_one mode_two m) _ w ((code, m'), w') h in cc

  load-code :
      (mode_one mode_two : ℕ) (code : ℤ) (m m' : MountPtr) (w w' : World K)
      → load v mode_one mode_two m w ≡ some ((code, m'), w')
      → code ≡ (v.register_filesystem w).0
  unfolding load
  load-code mode_one mode_two code m m' w w' h =
      elim (Bool-cases (is_nonzero (v.register_filesystem w).0)) [
        | inl bad ↦
            let k = rw bad at h in
            let (a, w1, e, l) =
              bind_inv (populate v mode_one mode_two m) _ (v.register_filesystem w).1
                ((code, m'), w') k in
            cc
        | inr good ↦
            let k = rw good at h in
            let w1 = (v.register_filesystem w).1 in
            after_mount-code mode_one mode_two (v.register_filesystem w).0 code
              (v.kern_mount (my_fs_type v) w1).0 m' (v.kern_mount (my_fs_type v) w1).1 w' k
      ]

  -- The value of `myfs_init`, in either version of the module, is the value of the registration of
  -- the file system: neither a mount that failed nor a file that could not be made is reported.
  pub myfs_init-code :
      (code : ℤ) (m m' : MountPtr) (w w' : World K)
      → ((myfs_init v m w ≡ some ((code, m'), w'))
          ⊎ (myfs_init_ubuntu v m w ≡ some ((code, m'), w')))
      → code ≡ (v.register_filesystem w).0
  unfolding myfs_init myfs_init_ubuntu
  myfs_init-code code m m' w w' (inl h) = load-code _ _ code m m' w w' h
  myfs_init-code code m m' w w' (inr h) = load-code _ _ code m m' w w' h

  -- After a registration that succeeds and a mount that fails with `e`, `myfs_init` has removed the
  -- registration again and makes no file, but returns 0 and leaves the error in `myfs_mount`.
  pub myfs_init_mount_fails :
      (e : ℤ) (m : MountPtr) (w : World K)
      → (v.register_filesystem w).0 ≡ pos 0
      → (v.kern_mount (my_fs_type v) (v.register_filesystem w).1).0 ≡ mount_error e
      → myfs_init v m w
        ≡ some (
          (pos 0, mount_error e),
          v.unregister_filesystem (v.kern_mount (my_fs_type v) (v.register_filesystem w).1).1,
        )
  unfolding myfs_init load after_mount
  myfs_init_mount_fails e m w registered failed = simp (registered, failed, after_mount)
