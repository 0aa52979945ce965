-- ===== src/MapDriver/Users/Strings.antt =====
-- exp2/exp2.4/maptest_read.c, exp2/exp2.4/maptest_write.c: what the programs read and write in the memory
-- of the driver.
use grade15_1linux.Common.{
  ℕ, zero, suc, ◌+◌, ◌-◌, ◌%◌, ◌^◌, ◌<◌, ◌≤◌, ◌≡◌, ◌∙◌, refl, ap, sym, subst, arith, Bool, true,
  false, some, [], ◌∷◌, ◌++◌, Bytes, length, NoNul, ltb, leb, ◌==◌, if◌then◌else◌, pos,
}
use grade15_1linux.MapDriver.{page_size, maplen}
use grade15_1linux.MapDriver.Mapping.{Vma, mapdrv_mmap, map_fault-mapdrv_mmap}
use grade15_1linux.MapDriver.Pages.{Kernel}
use grade15_1linux.MapDriver.Pages.Text.{Holds}
use grade15_1linux.MapDriver.Users.{mapping, translate, string_at, write_at}

-- The driver's memory is whole pages, its pages are different, and it ends below 2^64.
pub record IsArea (to_page page_address : ℕ → ℕ) (area : ℕ) : Type 0 where
  pub real : 0 < area
  pub aligned : area % page_size ≡ 0
  pub fits : area + maplen < 2 ^ 64
  pub own_pages :
      (x : ℕ) → area ≤ x → x < area + maplen → x % page_size ≡ 0 → page_address (to_page x) ≡ x

-- The kernel has put the mapping at whole pages.
pub record IsStart (start : ℕ) : Type 0 where
  pub aligned : start % page_size ≡ 0
  pub fits : start + maplen < 2 ^ 64

bounds-mapdrv_mmap :
    (vma : Vma)
    → ((mapdrv_mmap vma).1.vm_start ≡ vma.vm_start) × ((mapdrv_mmap vma).1.vm_end ≡ vma.vm_end)
unfolding mapdrv_mmap
bounds-mapdrv_mmap vma = (ground arith, ground arith)

module _ (to_page page_address : ℕ → ℕ) (base : ℕ) (area : IsArea to_page page_address base)
    (start : ℕ) (place : IsStart start) (writable shared : Bool)
    (ok : (mapdrv_mmap (mapping writable shared start)).0 ≡ pos 0) where
  abbrev vma : Vma
  vma = (mapdrv_mmap (mapping writable shared start)).1

  -- Each byte of the mapping is the byte of the memory at the same distance.
  translate_lem :
      (k : Kernel) (d : ℕ)
      → k.vmalloc_area ≡ base
      → d < maplen
      → translate to_page page_address k vma (start + d) ≡ some (base + d)
  unfolding translate
  translate_lem k d at_base h =
      let (same_start, same_end) = bounds-mapdrv_mmap (mapping writable shared start) in
      let first : leb start (start + d) ≡ true = ground arith in
      let last : ltb (start + d) (start + maplen) ≡ true = ground arith in
      let o = (start + d) % page_size in
      let p = start + d - o in
      let fault =
        map_fault-mapdrv_mmap to_page base p (mapping writable shared start) area.real area.fits
          place.fits ok (omega (arith, place.aligned)) (omega arith) in
      let x = base + (p - start) in
      let own : page_address (to_page x) ≡ x =
        area.own_pages x (omega arith) (omega arith) (omega (arith, place.aligned, area.aligned)) in
      let sum : x + o ≡ base + d = omega (arith, place.aligned) in
      rw (same_start, same_end, first, last, at_base, fault.0, own, sum) refl

  -- A string in the memory is the one that is printed at the same distance.
  pub string_at_lem :
      (fuel : ℕ) (k : Kernel) (d : ℕ) (s : Bytes)
      → k.vmalloc_area ≡ base
      → Holds k.memory (base + d) (s ++ 0 ∷ [])
      → NoNul s
      → d + length s < maplen
      → length s < fuel
      → string_at to_page page_address fuel k vma (start + d) ≡ some s
  unfolding string_at
  string_at_lem zero k d s at_base h raw inside enough = absurd (omega arith)
  string_at_lem (suc fuel) k d [] at_base h raw inside enough =
      rw (translate_lem k d at_base (omega arith), string_at) (rw h.0 refl)
  string_at_lem (suc fuel) k d (c ∷ s) at_base h raw inside enough =
      let more : (c == 0) ≡ false = ground (arith, raw.0) in
      let here : base + d + 1 ≡ base + (d + 1) = omega arith in
      let there : start + (d + 1) ≡ start + d + 1 = omega arith in
      let rest =
        ap (string_at to_page page_address fuel k vma) (sym there)
        ∙ string_at_lem fuel k (d + 1) s at_base
            (subst (λ a. Holds k.memory a (s ++ 0 ∷ [])) here h.1) raw.1 (omega arith)
            (omega arith) in
      rw (translate_lem k d at_base (omega arith), string_at)
        (rw (h.0, more, rest) (ap (λ b. some (b ∷ s)) h.0))

  -- What a `sprintf` of the program leaves.
  pub record Noted (k : Kernel) (d : ℕ) (bytes : Bytes) : Type 0 where
    pub after : Kernel
    pub result : write_at to_page page_address k vma (start + d) bytes ≡ some after
    pub at_base : after.vmalloc_area ≡ base
    pub holds : Holds after.memory (base + d) bytes
    pub below : (x : ℕ) → x < base + d → after.memory x ≡ k.memory x
    pub behind : (x : ℕ) → base + d + length bytes ≤ x → after.memory x ≡ k.memory x

  pub write_at-Noted :
      (k : Kernel) (d : ℕ) (bytes : Bytes)
      → k.vmalloc_area ≡ base
      → d + length bytes ≤ maplen
      → Noted k d bytes
  unfolding write_at
  write_at-Noted k d [] at_base inside = record {
    after = k;
    result = refl;
    at_base = at_base;
    holds = tt;
    below = λ x h. refl;
    behind = λ x h. refl;
  }
  write_at-Noted k d (b ∷ bytes) at_base inside =
      let set : Kernel = record k { memory = λ y. if y == base + d then b else k.memory y } in
      let n = write_at-Noted set (d + 1) bytes at_base (omega arith) in
      let there : start + d + 1 ≡ start + (d + 1) = omega arith in
      let here : base + (d + 1) ≡ base + d + 1 = omega arith in
      record {
        after = n.after;
        result =
            rw (translate_lem k d at_base (omega arith), write_at)
              (ap (λ a. write_at to_page page_address set vma a bytes) there ∙ n.result);
        at_base = n.at_base;
        holds = (
          n.below (base + d) (omega arith) ∙ ground arith,
          subst (λ a. Holds n.after.memory a bytes) here n.holds,
        );
        below = λ x h. n.below x (omega arith) ∙ ground arith;
        behind = λ x h. n.behind x (omega arith) ∙ ground arith;
      }
