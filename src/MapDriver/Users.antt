-- ===== src/MapDriver/Users.antt =====
-- exp2/exp2.4/maptest_read.c and exp2/exp2.4/maptest_write.c: programs that map the memory of the driver
-- of exp2/exp2.4/map_driver.c, and read strings from it or write one.
pub mod Strings
pub mod Programs
use grade15_1linux.Common.{
  ℕ, zero, suc, ◌+◌, ◌-◌, ◌*◌, ◌%◌, Bool, true, false, ◌&&◌, Option, none, some, List, [], ◌∷◌,
  Bytes, ltb, leb, ◌==◌, if◌then◌else◌, ℤ, pos, is_negative,
}
use grade15_1linux.MapDriver.{page_size, maplen}
use grade15_1linux.MapDriver.Mapping.{
  Vma, VmFault, FaultResult, crashed, sigbus, mapped, mapdrv_mmap, map_fault,
}
use grade15_1linux.MapDriver.Pages.{Kernel}

-- How far a program comes: it could not open the device, it was killed by an access to its memory, or it
-- sleeps for ever, with the strings that it has printed and the kernel as it left it.
pub data UserEnd : Type 0 where
  open_error : UserEnd
  killed : UserEnd
  asleep : List Bytes → Kernel → UserEnd

-- The mapping that the kernel makes for `mmap(0, LEN, …, fd, 0)`, at an address that it chooses.
abbrev pub mapping : Bool → Bool → ℕ → Vma
mapping writable shared start = record {
  vm_start = start;
  vm_end = start + maplen;
  vm_pgoff = 0;
  vm_write = writable;
  vm_shared = shared;
  vm_lockonfault = false;
  has_map_vm_ops = false;
}

-- "write from userspace" and its NUL.
unfoldable pub note : Bytes
note =
    b'w' ∷ b'r' ∷ b'i' ∷ b't' ∷ b'e' ∷ b' ' ∷ b'f' ∷ b'r' ∷ b'o' ∷ b'm' ∷ b' ' ∷ b'u' ∷ b's' ∷ b'e'
    ∷ b'r' ∷ b's' ∷ b'p' ∷ b'a' ∷ b'c' ∷ b'e' ∷ 0 ∷ []

-- `vmalloc_to_page` is the kernel's, and `page_address` where the bytes of a page stand in its memory.
module _ (vmalloc_to_page page_address : ℕ → ℕ) where
  -- The address in the kernel's memory of a byte of the program, after the fault on its page: `none` is
  -- a signal that kills the program.
  unfoldable pub translate : Kernel → Vma → ℕ → Option ℕ
  translate k vma a =
      if leb vma.vm_start a && ltb a vma.vm_end
      then elim (map_fault vmalloc_to_page k.vmalloc_area
          (record { address = a - a % page_size; vma = some vma })) [
            | crashed ↦ none
            | sigbus ↦ none
            | mapped page ↦ some (page_address page + a % page_size)
          ]
      else none

  -- What `printf` prints of a string at an address; the fuel is one round for each byte.
  unfoldable pub string_at : ℕ → Kernel → Vma → ℕ → Option Bytes
  string_at zero k vma a = none
  string_at (suc fuel) k vma a = elim (translate k vma a) [
    | none ↦ none
    | some x ↦
        let rest = string_at fuel k vma (a + 1) in
        if k.memory x == 0
        then some []
        else elim rest [ none ↦ none | some s ↦ some (k.memory x ∷ s) ]
  ]

  -- `sprintf` of some bytes to an address.
  unfoldable pub write_at : Kernel → Vma → ℕ → Bytes → Option Kernel
  write_at k vma a [] = some k
  write_at k vma a (b ∷ bytes) = elim (translate k vma a) [
    | none ↦ none
    | some x ↦
        write_at (record k { memory = λ y. if y == x then b else k.memory y }) vma (a + 1) bytes
  ]

  -- `fd` is the value of `open`. Nothing tests the value of `mmap`: an error is used as an address, which
  -- kills the program.
  unfoldable pub maptest_read : ℤ → ℕ → Kernel → UserEnd
  maptest_read fd start k =
      let (code, vma) = mapdrv_mmap (mapping false false start) in
      if is_negative fd
      then open_error
      else (if is_negative code then killed else elim (string_at maplen k vma start) [
        | none ↦ killed
        | some one ↦ elim (string_at maplen k vma (start + 4096)) [
          | none ↦ killed
          | some two ↦ asleep (one ∷ two ∷ []) k
        ]
      ])

  unfoldable pub maptest_write : ℤ → ℕ → Kernel → UserEnd
  maptest_write fd start k =
      let (code, vma) = mapdrv_mmap (mapping true true start) in
      if is_negative fd
      then open_error
      else (if is_negative code
          then killed
          else elim (write_at k vma start note) [ none ↦ killed | some k' ↦ asleep [] k' ])
