-- ===== src/MapDriver/Pages.antt =====
-- exp2/exp2.4/map_driver.c: `mapdrv_init` and `mapdrv_exit`, which go over the pages of the memory.
pub mod Text
pub mod Reserve
use grade15_1linux.Common.{
  ℕ, zero, suc, ◌+◌, ◌-◌, ◌*◌, ◌/◌, ◌%◌, ◌^◌, Bool, true, false, not, Option, none, some, List, [],
  ◌∷◌, ◌++◌, Bytes, ltb, ◌==◌, if◌then◌else◌, ℤ, pos, is_negative,
}
use grade15_1linux.MapDriver.{page_size, maplen}

-- The decimal digits of a number, as `sprintf` prints `%d`.
unfoldable pub digits : ℕ → ℕ → Bytes
digits zero n = []
digits (suc fuel) n =
    let more = digits fuel (n / 10) in
    if ltb n 10 then (48 + n) ∷ [] else more ++ ((48 + n % 10) ∷ [])

-- "test %d" and the NUL behind it.
unfoldable pub message : ℕ → Bytes
unfolding digits
message i = b't' ∷ b'e' ∷ b's' ∷ b't' ∷ b' ' ∷ (digits (i + 1) i ++ (0 ∷ []))

-- Writing bytes from an address on.
pub store : ℕ → Bytes → (ℕ → ℕ) → ℕ → ℕ
store a [] memory x = memory x
store a (b ∷ bytes) memory x = if x == a then b else store (a + 1) bytes memory x

-- The memory of the kernel, the pages that are reserved, the variable `vmalloc_area` (0 for NULL),
-- whether the driver holds its memory, and whether the device is registered.
pub record Kernel : Type 0 where
  pub memory : ℕ → ℕ
  pub reserved : ℕ → Bool
  pub vmalloc_area : ℕ
  pub allocated : Bool
  pub registered : Bool

abbrev pub mark : ℕ → Bool → (ℕ → Bool) → ℕ → Bool
mark page b reserved p = if p == page then b else reserved p

module _ (vmalloc_to_page : ℕ → ℕ) where
  -- The loop of the entry from an address and a number on; `finish` is the end of the memory. The
  -- page at NULL has no `struct page` and cannot be written to: the access faults.
  pub init_loop : ℕ → ℕ → ℕ → ℕ → Kernel → Option Kernel
  init_loop zero virt_addr finish i k = none
  init_loop (suc fuel) virt_addr finish i k = elim (ltb virt_addr finish) [
    | false ↦ some k
    | true ↦ elim (virt_addr == 0) [
      | true ↦ none
      | false ↦ init_loop fuel (virt_addr + page_size) finish (i + 1) (record k {
        memory = store virt_addr (message i) k.memory;
        reserved = mark (vmalloc_to_page virt_addr) true k.reserved;
      })
    ]
  ]

  pub exit_loop : ℕ → ℕ → ℕ → Kernel → Option Kernel
  exit_loop zero virt_addr finish k = none
  exit_loop (suc fuel) virt_addr finish k = elim (ltb virt_addr finish) [
    | false ↦ some k
    | true ↦ elim (virt_addr == 0) [
      | true ↦ none
      | false ↦
          exit_loop fuel (virt_addr + page_size) finish
            (record k { reserved = mark (vmalloc_to_page virt_addr) false k.reserved })
    ]
  ]

  -- `result` is the value of `register_chrdev`, `area` that of `vmalloc`. The eleven rounds of fuel are
  -- one for each page and one for the last test.
  pub mapdrv_init : ℤ → ℕ → Kernel → Option (ℤ × Kernel)
  mapdrv_init result area k =
      if is_negative result
      then some (result, k)
      else (let k1 = record k {
        vmalloc_area = area;
        allocated = not (area == 0);
        registered = true;
      } in
          elim (init_loop 11 area (area + maplen) 1 k1) [
            | none ↦ none
            | some k2 ↦ some (pos 0, k2)
          ])

  -- Freeing the memory leaves its contents, and the variable, as they are.
  pub mapdrv_exit : Kernel → Option Kernel
  mapdrv_exit k = elim (exit_loop 11 k.vmalloc_area (k.vmalloc_area + maplen) k) [
    | none ↦ none
    | some k2 ↦ some (record k2 {
      allocated = if k2.vmalloc_area == 0 then k2.allocated else false;
      registered = false;
    })
  ]
