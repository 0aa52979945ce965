-- ===== src/MapDriver/Examples.antt =====
-- Instances of the theorems about exp2/exp2.4/map_driver.c.
use grade15_1linux.Common.{
  ℕ, ◌+◌, ◌-◌, ◌*◌, ◌/◌, ◌<◌, ◌≡◌, refl, true, false, ◌||◌, some, arith, pos, [], ◌∷◌,
}
use grade15_1linux.MapDriver.{page_size, maplen}
use grade15_1linux.MapDriver.Mapping.{Vma, mapdrv_mmap, map_fault, mapped, map_fault-mapdrv_mmap}
use grade15_1linux.MapDriver.Pages.{Kernel, mapdrv_init, mapdrv_exit}
use grade15_1linux.MapDriver.Pages.Text.{Entered, mapdrv_init-Entered}
use grade15_1linux.MapDriver.Pages.Reserve.{among, mapdrv_exit-mapdrv_init}
use grade15_1linux.MapDriver.Users.{maptest_read, maptest_write, asleep}
use grade15_1linux.MapDriver.Users.Strings.{IsArea, IsStart}
use grade15_1linux.MapDriver.Users.Programs.{test, from_userspace, maptest-mapdrv_init}

-- A shared mapping of two pages from address 20480 on, and the memory of the driver at 65536.
abbrev two_pages : Vma
two_pages = record {
  vm_start = 20480;
  vm_end = 28672;
  vm_pgoff = 0;
  vm_write = true;
  vm_shared = true;
  vm_lockonfault = false;
  has_map_vm_ops = false;
}

abbrev private_pages : Vma
private_pages = record two_pages { vm_shared = false }

abbrev page_of : ℕ → ℕ
page_of addr = addr / page_size

accepted : (mapdrv_mmap two_pages).0 ≡ pos 0
unfolding mapdrv_mmap
accepted = refl

map_fault-mapdrv_mmap_example :
    (map_fault page_of 65536 (record { address = 25000; vma = some (mapdrv_mmap two_pages).1 })
      ≡ mapped (page_of (65536 + (25000 - 20480))))
    × (25000 - 20480 < maplen)
map_fault-mapdrv_mmap_example =
    map_fault-mapdrv_mmap page_of 65536 25000 two_pages (omega arith) (omega arith) (omega arith)
      accepted (omega arith) (omega arith)

abbrev unloaded : Kernel
unloaded = record {
  memory = λ x. 0;
  reserved = λ p. false;
  vmalloc_area = 0;
  allocated = false;
  registered = false;
}

mapdrv_init-Entered_example :
    Entered page_of (pos 0) 65536 unloaded (mapdrv_init page_of (pos 0) 65536 unloaded)
mapdrv_init-Entered_example = mapdrv_init-Entered page_of (pos 0) 65536 unloaded

mapdrv_exit-mapdrv_init_example :
    (k1 k2 : Kernel) × (mapdrv_init page_of (pos 0) 65536 unloaded ≡ some (pos 0, k1))
    × ((p : ℕ) → k1.reserved p ≡ (among page_of 10 65536 p || unloaded.reserved p))
    × (mapdrv_exit page_of k1 ≡ some k2)
    × ((p : ℕ) → k2.reserved p ≡ unloaded.reserved p)
    × (k2.allocated ≡ false)
    × (k2.registered ≡ false)
mapdrv_exit-mapdrv_init_example =
    mapdrv_exit-mapdrv_init page_of (pos 0) 65536 unloaded refl (omega arith) (λ p h. refl)

-- The kernel's memory, page by page.
abbrev address_of : ℕ → ℕ
address_of page = page * page_size

own-IsArea : IsArea page_of address_of 65536
own-IsArea = record {
  real = omega arith;
  aligned = refl;
  fits = omega arith;
  own_pages = λ x lo hi whole. omega (arith, whole);
}

at_page-IsStart : (n : ℕ) → n < 100 → IsStart (n * page_size)
at_page-IsStart n h = record { aligned = omega arith; fits = omega arith }

maptest-mapdrv_init_example :
    (k1 k2 : Kernel) × (mapdrv_init page_of (pos 0) 65536 unloaded ≡ some (pos 0, k1))
    × (maptest_read page_of address_of (pos 3) (1 * page_size) k1
        ≡ asleep (test 1 ∷ test 2 ∷ []) k1)
    × (maptest_write page_of address_of (pos 3) (2 * page_size) k1 ≡ asleep [] k2)
    × (maptest_read page_of address_of (pos 3) (30 * page_size) k2
        ≡ asleep (from_userspace ∷ test 2 ∷ []) k2)
maptest-mapdrv_init_example =
    maptest-mapdrv_init page_of address_of (pos 0) 65536 unloaded (pos 3) (1 * page_size)
      (2 * page_size) (30 * page_size) refl own-IsArea refl (at_page-IsStart 1 (omega arith))
      (at_page-IsStart 2 (omega arith)) (at_page-IsStart 30 (omega arith))
