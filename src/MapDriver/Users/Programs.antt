-- ===== src/MapDriver/Users/Programs.antt =====
-- exp2/exp2.4/maptest_read.c, exp2/exp2.4/maptest_write.c: the programs after a load of the driver.
use grade15_1linux.Common.{
  ℕ, ◌+◌, ◌-◌, ◌*◌, ◌%◌, ◌^◌, ◌<◌, ◌≤◌, ◌≡◌, ◌∙◌, refl, ap, sym, subst, arith, Bool, true, false,
  ◌&&◌, not, take, some, [], ◌∷◌, ◌++◌, Bytes, length, NoNul, ◌==◌, ℤ, pos, is_negative,
}
use grade15_1linux.MapDriver.{page_size, maplen}
use grade15_1linux.MapDriver.Mapping.{mapdrv_mmap}
use grade15_1linux.MapDriver.Pages.{Kernel, digits, message, mapdrv_init}
use grade15_1linux.MapDriver.Pages.Text.{mapdrv_init_filled, mapdrv_init_area, Holds, Holds-same}
use grade15_1linux.MapDriver.Users.{
  asleep, mapping, note, string_at, write_at, maptest_read, maptest_write,
}
use grade15_1linux.MapDriver.Users.Strings.{IsArea, IsStart, string_at_lem, write_at-Noted}

accepted :
    (writable shared : Bool) (start : ℕ)
    → IsStart start
    → (writable && not shared) ≡ false
    → (mapdrv_mmap (mapping writable shared start)).0 ≡ pos 0
unfolding mapdrv_mmap
accepted writable shared start place may =
    let size : (start + maplen + 2 ^ 64 - start) % 2 ^ 64 ≡ maplen = omega arith in
    rw (size, may) refl

-- "test 1" and "test 2".
abbrev pub test : ℕ → Bytes
test i = b't' ∷ b'e' ∷ b's' ∷ b't' ∷ b' ' ∷ (48 + i) ∷ []

-- "write from userspace".
abbrev pub from_userspace : Bytes
from_userspace = take 20 note

note-length : length note ≡ 21
unfolding note
note-length = refl

-- Bytes without a NUL, by a test.
abbrev full : Bytes → Bool
full [] = true
full (b ∷ bytes) = not (b == 0) && full bytes

no_nul : (s : Bytes) → full s ≡ true → NoNul s
no_nul [] e = tt
no_nul (b ∷ s) e = ((λ z. ground arith), no_nul s (ground arith))

module _ (to_page page_address : ℕ → ℕ) (base : ℕ) (area : IsArea to_page page_address base) where
  -- The program that reads, on a memory with two strings at the start of its first two pages.
  read_lem :
      (fd : ℤ) (start : ℕ) (k : Kernel) (one two : Bytes)
      → is_negative fd ≡ false
      → IsStart start
      → k.vmalloc_area ≡ base
      → Holds k.memory base (one ++ 0 ∷ [])
      → Holds k.memory (base + page_size) (two ++ 0 ∷ [])
      → NoNul one
      → NoNul two
      → length one < page_size
      → length two < page_size
      → maptest_read to_page page_address fd start k ≡ asleep (one ∷ two ∷ []) k
  unfolding maptest_read
  read_lem fd start k one two opened place at_base h1 h2 raw1 raw2 short1 short2 =
      let ok = accepted false false start place refl in
      let first : base ≡ base + 0 = omega arith in
      let from : start + 0 ≡ start = omega arith in
      let s1 =
        ap (string_at to_page page_address maplen k _) (sym from)
        ∙ string_at_lem to_page page_address base area start place false false ok maplen k 0 one
            at_base (subst (λ a. Holds k.memory a (one ++ 0 ∷ [])) first h1) raw1 (omega arith)
            (omega arith) in
      let s2 =
        string_at_lem to_page page_address base area start place false false ok maplen k page_size
          two at_base h2 raw2 (omega arith) (omega arith) in
      rw (opened, ok, s1, s2) refl

  write_lem :
      (fd : ℤ) (start : ℕ) (k : Kernel)
      → is_negative fd ≡ false
      → IsStart start
      → k.vmalloc_area ≡ base
      → (k' : Kernel) × (maptest_write to_page page_address fd start k ≡ asleep [] k')
        × (k'.vmalloc_area ≡ base)
        × Holds k'.memory base note
        × ((x : ℕ) → base + page_size ≤ x → k'.memory x ≡ k.memory x)
  unfolding maptest_write
  write_lem fd start k opened place at_base =
      let ok = accepted true true start place refl in
      let from : start + 0 ≡ start = omega arith in
      let first : base + 0 ≡ base = omega arith in
      let n =
        write_at-Noted to_page page_address base area start place true true ok k 0 note at_base
          (omega (arith, note-length)) in
      let wrote =
        ap (λ a. write_at to_page page_address k (mapdrv_mmap (mapping true true start)).1 a note)
          (sym from)
        ∙ n.result in
      (
        n.after,
        rw (opened, ok, wrote) refl,
        n.at_base,
        subst (λ a. Holds n.after.memory a note) first n.holds,
        λ x h. n.behind x (omega (arith, note-length)),
      )

-- After a load of the driver: the program that reads prints "test 1" and "test 2"; the one that writes
-- puts its text into the driver's memory; and after it the program that reads prints "write from
-- userspace" and "test 2", in whatever places the kernel maps the memory. The registration of the driver
-- and the opens of the device succeed; the driver's memory is whole pages of its own, below 2^64, and so
-- are the three mappings.
pub maptest-mapdrv_init :
    (to_page page_address : ℕ → ℕ) (result : ℤ) (base : ℕ) (k : Kernel) (fd : ℤ) (s1 s2 s3 : ℕ)
    → is_negative result ≡ false
    → IsArea to_page page_address base
    → is_negative fd ≡ false
    → IsStart s1
    → IsStart s2
    → IsStart s3
    → (k1 k2 : Kernel) × (mapdrv_init to_page result base k ≡ some (pos 0, k1))
      × (maptest_read to_page page_address fd s1 k1 ≡ asleep (test 1 ∷ test 2 ∷ []) k1)
      × (maptest_write to_page page_address fd s2 k1 ≡ asleep [] k2)
      × (maptest_read to_page page_address fd s3 k2 ≡ asleep (from_userspace ∷ test 2 ∷ []) k2)
unfolding message digits note
maptest-mapdrv_init to_page page_address result base k fd s1 s2 s3 ok area opened p1 p2 p3 =
    let (k1, loaded, texts, below) = mapdrv_init_filled to_page result base k ok area.real in
    let at_base = mapdrv_init_area to_page result base k (pos 0) k1 ok area.real loaded in
    let (k2, wrote, still, noted, behind) =
      write_lem to_page page_address base area fd s2 k1 opened p2 at_base in
    let zero_on : base + 0 * page_size ≡ base = omega arith in
    let one_on : base + 1 * page_size ≡ base + page_size = omega arith in
    let h1 : Holds k1.memory base (test 1 ++ 0 ∷ []) =
      subst (λ a. Holds k1.memory a (test 1 ++ 0 ∷ [])) zero_on (texts 0 (omega arith)) in
    let h2 : Holds k1.memory (base + page_size) (test 2 ++ 0 ∷ []) =
      subst (λ a. Holds k1.memory a (test 2 ++ 0 ∷ [])) one_on (texts 1 (omega arith)) in
    let h3 =
      Holds-same (base + page_size) (test 2 ++ 0 ∷ []) k1.memory k2.memory (λ x lo hi. behind x lo)
        h2 in
    (
      k1,
      k2,
      loaded,
      read_lem to_page page_address base area fd s1 k1 (test 1) (test 2) opened p1 at_base h1 h2
          (no_nul (test 1) refl) (no_nul (test 2) refl) (omega arith) (omega arith),
      wrote,
      read_lem to_page page_address base area fd s3 k2 from_userspace (test 2) opened p3 still noted
          h3 (no_nul from_userspace refl) (no_nul (test 2) refl) (omega arith) (omega arith),
    )
