-- ===== src/MapDriver/Mapping.antt =====
-- exp2/exp2.4/map_driver.c: `mapdrv_mmap` and `map_fault`.
use grade15_1linux.Common.{
  ℕ, ◌+◌, ◌-◌, ◌*◌, ◌%◌, ◌^◌, ◌≤◌, ◌<◌, ◌≡◌, ◌↔◌, ◌⊎◌, Bool, true, false, ◌&&◌, not, Option, none,
  some, arith, ltb, leb, ◌==◌, if◌then◌else◌, ℤ, pos, enxio, einval,
}
use grade15_1linux.MapDriver.{page_size, maplen}

-- The fields of `struct vm_area_struct` that the driver uses: of `vm_flags` the three bits VM_WRITE,
-- VM_SHARED and VM_LOCKONFAULT, and of `vm_ops` whether it is the driver's table.
pub record Vma : Type 0 where
  pub vm_start : ℕ
  pub vm_end : ℕ
  pub vm_pgoff : ℕ
  pub vm_write : Bool
  pub vm_shared : Bool
  pub vm_lockonfault : Bool
  pub has_map_vm_ops : Bool

-- `unsigned long` has 64 bits.
abbrev pub u64_sub : ℕ → ℕ → ℕ
u64_sub a b = (a + 2 ^ 64 - b) % 2 ^ 64

abbrev pub map_offset : Vma → ℕ
map_offset vma = vma.vm_pgoff * page_size % 2 ^ 64

abbrev pub map_size : Vma → ℕ
map_size vma = u64_sub vma.vm_end vma.vm_start

unfoldable pub mapdrv_mmap : Vma → ℤ × Vma
mapdrv_mmap vma =
    if ltb maplen (map_size vma)
    then (enxio, vma)
    else if vma.vm_write && not vma.vm_shared
    then (einval, vma)
    else let locked = record vma { vm_lockonfault = true } in
      if map_offset vma == 0
      then (pos 0, record locked { has_map_vm_ops = true })
      else (enxio, locked)

-- `struct vm_fault`.
pub record VmFault : Type 0 where
  pub address : ℕ
  pub vma : Option Vma

-- The page that the handler gives, VM_FAULT_SIGBUS, or the access through a null `vma` that precedes
-- the test of it.
pub data FaultResult : Type 0 where
  crashed : FaultResult
  sigbus : FaultResult
  mapped : ℕ → FaultResult

-- `vmalloc_to_page` is the kernel's; the memory is at `vmalloc_area`, which is 0 for NULL.
pub map_fault : (ℕ → ℕ) → ℕ → VmFault → FaultResult
map_fault vmalloc_to_page vmalloc_area vmf = elim vmf.vma [
  | none ↦ crashed
  | some vma ↦
      let offset = u64_sub vmf.address vma.vm_start in
      if vmalloc_area == 0
      then sigbus
      else if leb maplen offset
      then sigbus
      else mapped (vmalloc_to_page ((vmalloc_area + offset) % 2 ^ 64))
]

-- The conditions under which a mapping is accepted.
abbrev pub IsMappable : Vma → Type 0
IsMappable vma =
    (map_size vma ≤ maplen)
    × ((vma.vm_write ≡ false) ⊎ (vma.vm_shared ≡ true))
    × (map_offset vma ≡ 0)

-- `mmap` accepts exactly the mappings of at most ten pages that are shared or not writable and whose
-- offset, modulo 2^64, is 0; these, and only these, get the driver's operations.
pub mapdrv_mmap_iff :
    (vma : Vma)
    → vma.has_map_vm_ops ≡ false
    → (((mapdrv_mmap vma).0 ≡ pos 0) ↔ IsMappable vma)
      × (((mapdrv_mmap vma).1.has_map_vm_ops ≡ true) ↔ IsMappable vma)
unfolding mapdrv_mmap
mapdrv_mmap_iff vma fresh = (
  (λ e. (ground arith, ground arith, ground arith), λ e. ground arith),
  (λ e. (ground arith, ground arith, ground arith), λ e. ground arith),
)

vm_start-mapdrv_mmap : (vma : Vma) → (mapdrv_mmap vma).1.vm_start ≡ vma.vm_start
unfolding mapdrv_mmap
vm_start-mapdrv_mmap vma = ground arith

size_of_accepted : (vma : Vma) → (mapdrv_mmap vma).0 ≡ pos 0 → map_size vma ≤ maplen
unfolding mapdrv_mmap
size_of_accepted vma ok = ground arith

-- In a mapping that `mmap` has accepted, a fault at any of its addresses gives the page of the
-- driver's memory at the same distance from its start; the bytes of that distance lie in the ten
-- pages of the memory.
pub map_fault-mapdrv_mmap :
    (to_page : ℕ → ℕ) (area address : ℕ) (vma : Vma)
    → 0 < area
    → area + maplen < 2 ^ 64
    → vma.vm_end < 2 ^ 64
    → (mapdrv_mmap vma).0 ≡ pos 0
    → vma.vm_start ≤ address
    → address < vma.vm_end
    → (map_fault to_page area (record { address = address; vma = some (mapdrv_mmap vma).1 })
        ≡ mapped (to_page (area + (address - vma.vm_start))))
      × (address - vma.vm_start < maplen)
unfolding map_fault
map_fault-mapdrv_mmap to_page area address vma real fits low ok above below =
    let short = size_of_accepted vma ok in
    let d = address - vma.vm_start in
    let inside : d < maplen = ground arith in
    let off : u64_sub address vma.vm_start ≡ d = omega arith in
    let there : (area == 0) ≡ false = ground arith in
    let within : leb maplen d ≡ false = ground arith in
    let sum : (area + d) % 2 ^ 64 ≡ area + d = omega arith in
    (rw (vm_start-mapdrv_mmap vma, off, there, within, sum), inside)
