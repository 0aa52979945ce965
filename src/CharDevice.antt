-- ===== src/CharDevice.antt =====
-- exp4/exp4_1_kernel.c: the entry and the exit of a character device whose handlers only print.
-- Resources is what they hold of the kernel, Handlers the handlers, and User the program that uses the
-- device.
pub mod Resources
pub mod Handlers
pub mod User
mod Examples
use grade15_1linux.Common.{ℕ, Option, none, some, List, [], ◌∷◌, ℤ, pos, is_nonzero, if◌then◌else◌}

-- The calls of the two functions to the kernel, with what they return: `none` is NULL.
pub data Call : Type 0 where
  alloc_chrdev_region : ℤ → Call
  cdev_alloc : Option ℕ → Call
  cdev_init : ℕ → Call
  cdev_add : ℕ → ℤ → Call
  cdev_del : ℕ → Call
  unregister_chrdev_region : Call

-- What the kernel answers, and what happens to be in `char_device_add_fail` where the entry jumps
-- over its initialisation.
pub record Answers : Type 0 where
  pub region : ℤ
  pub cdev : Option ℕ
  pub add : ℤ
  pub uninitialised : ℤ

-- The variable `my_cdev`, and the calls so far, the last one first.
pub record Driver : Type 0 where
  pub my_cdev : Option ℕ
  pub calls : List Call

abbrev pub also : Call → Driver → Driver
also c d = record d { calls = c ∷ d.calls }

abbrev pub alloc_cdev : Answers → Driver → Driver
alloc_cdev a d = record d { my_cdev = a.cdev; calls = cdev_alloc a.cdev ∷ d.calls }

unfoldable pub device_init : Answers → Driver → ℤ × Driver
device_init a d =
    let d1 = also (alloc_chrdev_region a.region) d in
    let d2 = alloc_cdev a d1 in
    if is_nonzero a.region then (a.region, d1) else elim a.cdev [
      | none ↦ (a.uninitialised, also unregister_chrdev_region d2)
      | some c ↦
          let d3 = also (cdev_add c a.add) (also (cdev_init c) d2) in
          if is_nonzero a.add
          then (a.add, also unregister_chrdev_region (also (cdev_del c) d3))
          else (pos 0, d3)
    ]

-- `if (my_cdev) cdev_del(my_cdev);`
abbrev pub drop_cdev : Driver → Driver
drop_cdev d = elim d.my_cdev [ none ↦ d | some c ↦ also (cdev_del c) d ]

unfoldable pub device_exit : Driver → Driver
device_exit d = also unregister_chrdev_region (drop_cdev d)
