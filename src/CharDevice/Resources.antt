-- ===== src/CharDevice/Resources.antt =====
-- exp4/exp4_1_kernel.c: what the driver holds of the kernel after its entry and its exit.
use grade15_1linux.Common.{
  ℕ, ◌≡◌, ◌==◌, if◌then◌else◌, refl, Option, none, some, List, [], ◌∷◌, arith, ℤ, pos, is_nonzero,
  Bool, true, false, Option-cases, Bool-cases, inl, inr,
}
use grade15_1linux.CharDevice.{
  Call, alloc_chrdev_region, cdev_alloc, cdev_init, cdev_add, cdev_del, unregister_chrdev_region,
  Answers, Driver, device_init, device_exit,
}

-- What the kernel has given and not taken back: the device number, the structure with whether its
-- release frees it, and whether the device is live.
pub record Held : Type 0 where
  pub region : Bool
  pub cdev : Option ℕ
  pub freed_by_release : Bool
  pub live : Bool

abbrev pub nothing : Held
nothing = record { region = false; cdev = none; freed_by_release = false; live = false }

-- The device of a structure that is deleted is not live any more. The structure itself is given back
-- only if its release frees it.
abbrev pub deleted : ℕ → Held → Held
deleted c h = elim h.cdev [
  | none ↦ h
  | some b ↦
      if b == c
      then record h { cdev = if h.freed_by_release then none else some b; live = false }
      else h
]

-- `cdev_alloc` gives a structure that its release frees. `cdev_init` sets up the structure anew, with
-- the release of a structure that is not allocated, which frees nothing.
unfoldable pub held : List Call → Held
held [] = nothing
held (alloc_chrdev_region r ∷ calls) = record (held calls) {
  region = if is_nonzero r then (held calls).region else true;
}
held (cdev_alloc (some c) ∷ calls) = record (held calls) { cdev = some c; freed_by_release = true }
held (cdev_init c ∷ calls) = record (held calls) { freed_by_release = false }
held (cdev_add c r ∷ calls) = record (held calls) {
  live = if is_nonzero r then (held calls).live else true;
}
held (cdev_del c ∷ calls) = deleted c (held calls)
held (unregister_chrdev_region ∷ calls) = record (held calls) { region = false }
held (_ ∷ calls) = held calls

-- How a load of the module ends, from a state that holds nothing.
pub data Loaded (a : Answers) (code : ℤ) (h : Held) : Type 0 where
  no_region : is_nonzero a.region ≡ true → code ≡ a.region → h ≡ nothing → Loaded a code h
  no_cdev : a.cdev ≡ none → code ≡ a.uninitialised → h ≡ nothing → Loaded a code h
  not_added :
      (c : ℕ)
      → a.cdev ≡ some c
      → is_nonzero a.add ≡ true
      → code ≡ a.add
      → h ≡ record nothing { cdev = some c }
      → Loaded a code h
  done :
      (c : ℕ)
      → is_nonzero a.region ≡ false
      → a.cdev ≡ some c
      → is_nonzero a.add ≡ false
      → code ≡ pos 0
      → h ≡ record nothing { region = true; cdev = some c; live = true }
      → Loaded a code h

-- From a state that holds nothing, `device_init` makes the device live, with the value 0, where the
-- registration, `cdev_alloc` and `cdev_add` succeed. It holds nothing after a failure of the
-- registration, whose error it returns, and of `cdev_alloc`, after which the value is whatever stood in
-- the variable that is not initialised. After a failure of `cdev_add`, whose error it returns, it
-- still holds the structure.
pub device_init-Loaded :
    (a : Answers) (d : Driver)
    → held d.calls ≡ nothing
    → Loaded a (device_init a d).0 (held (device_init a d).1.calls)
unfolding device_init held
device_init-Loaded a d fresh = elim (Bool-cases (is_nonzero a.region)) [
  | inl r ↦ simp (r, device_init) (no_region r refl (ground arith))
  | inr r ↦ elim (Option-cases a.cdev) [
    | inl e ↦ simp (r, e, device_init) (no_cdev e refl (ground arith))
    | inr (c, e) ↦ elim (Bool-cases (is_nonzero a.add)) [
      | inl f ↦ simp (r, e, f, device_init) (not_added c e f refl (ground arith))
      | inr f ↦ simp (r, e, f, device_init) (done c r e f refl (ground arith))
    ]
  ]
]

-- From a state that holds nothing: behind a load whose `cdev_alloc` and value are a success, the exit
-- leaves the structure allocated and nothing else held.
pub device_exit-device_init :
    (a : Answers) (d : Driver) {c : ℕ}
    → held d.calls ≡ nothing
    → a.cdev ≡ some c
    → (device_init a d).0 ≡ pos 0
    → held (device_exit (device_init a d).1).calls ≡ record nothing { cdev = some c }
unfolding device_init device_exit held
device_exit-device_init a d fresh given loaded = ground arith
