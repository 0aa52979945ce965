-- ===== src/Ramdisk/Ioctl.antt =====
-- exp4/exp_4_2_ramdisk_driver.c, exp4/exp_4_2_original.c: `my_ioctl`, which reports a made-up geometry of the disk.
use grade15_1linux.Common.{
  ℕ, ◌-◌, ◌/◌, ◌%◌, ◌^◌, ◌<◌, ◌≡◌, ◌↔◌, Option, none, some, arith, ℤ, pos, efault, enotty, ◌==◌,
  if◌then◌else◌,
}

-- The number of the command in the kernel's headers.
abbrev pub hdio_getgeo : ℕ
hdio_getgeo = 0x0301

-- `struct hd_geometry`: `cylinders` is an unsigned short.
pub record HdGeometry : Type 0 where
  pub heads : ℕ
  pub sectors : ℕ
  pub cylinders : ℕ
  pub start : ℕ

-- `size &= ~0x3f` clears the low six bits, and the rest is shifted down by six.
unfoldable pub fake_geometry : ℕ → HdGeometry
fake_geometry disk_size = record {
  heads = 2;
  sectors = 16;
  cylinders = (disk_size - disk_size % 64) / 2 ^ 6 % 2 ^ 16;
  start = 4;
}

-- `left_over` is the value of `copy_to_user`. The result has the geometry that the user is given.
unfoldable pub my_ioctl : ℕ → (HdGeometry → ℕ) → ℕ → ℤ × Option HdGeometry
my_ioctl disk_size left_over cmd =
    if cmd == hdio_getgeo
    then (if left_over (fake_geometry disk_size) == 0
        then (pos 0, some (fake_geometry disk_size))
        else (efault, none))
    else (enotty, none)

-- The function of exp4/exp_4_2_original.c is the same.
unfoldable pub my_ioctl_original : ℕ → (HdGeometry → ℕ) → ℕ → ℤ × Option HdGeometry
unfolding my_ioctl
my_ioctl_original = my_ioctl

-- The cylinders that a successful call reports are the disk's bytes divided by 64 exactly on a disk
-- of less than 4 MB: on a larger one the division does not fit into `cylinders`.
pub my_ioctl_cylinders_iff :
    (disk_size : ℕ) (left_over : HdGeometry → ℕ) (geo : HdGeometry)
    → (my_ioctl disk_size left_over hdio_getgeo).1 ≡ some geo
    → (geo.cylinders ≡ disk_size / 64) ↔ (disk_size < 2 ^ 22)
unfolding my_ioctl fake_geometry
my_ioctl_cylinders_iff disk_size left_over geo h = (λ e. ground arith, λ e. ground arith)
