-- ===== src/MapDriver/Pages/Reserve.antt =====
-- exp2/exp2.4/map_driver.c: which pages the module reserves, and that its exit gives them back.
use grade15_1linux.Common.{
  ℕ, zero, suc, ◌+◌, ◌*◌, ◌<◌, ◌≡◌, ◌∙◌, refl, ap, Bool, true, false, ◌&&◌, ◌||◌, not, some, arith,
  ltb, ◌==◌, if◌then◌else◌, ℤ, pos, is_negative,
}
use grade15_1linux.MapDriver.{page_size, maplen}
use grade15_1linux.MapDriver.Pages.{
  Kernel, mark, store, message, init_loop, exit_loop, mapdrv_init, mapdrv_exit,
}

module _ (to_page : ℕ → ℕ) where
  -- The pages of `n` pages of memory from an address on.
  unfoldable pub among : ℕ → ℕ → ℕ → Bool
  among zero addr p = false
  among (suc n) addr p = p == to_page addr || among n (addr + page_size) p

  record Marked (fuel n addr finish i : ℕ) (k : Kernel) : Type 0 where
    after : Kernel
    result : init_loop to_page fuel addr finish i k ≡ some after
    reserved : (p : ℕ) → after.reserved p ≡ (among n addr p || k.reserved p)
    area : after.vmalloc_area ≡ k.vmalloc_area
    kept : after.allocated ≡ k.allocated

  init_loop-Marked :
      (fuel n addr finish i : ℕ) (k : Kernel)
      → finish ≡ addr + n * page_size
      → 0 < addr
      → n < fuel
      → Marked fuel n addr finish i k
  unfolding init_loop among
  init_loop-Marked zero n addr finish i k e real h = absurd (omega arith)
  init_loop-Marked (suc fuel) zero addr finish i k e real h =
      let stop : ltb addr finish ≡ false = ground arith in
      record {
        after = k;
        result = rw (stop, init_loop);
        reserved = λ p. refl;
        area = refl;
        kept = refl;
      }
  init_loop-Marked (suc fuel) (suc n) addr finish i k e real h =
      let more : ltb addr finish ≡ true = ground arith in
      let there : (addr == 0) ≡ false = ground arith in
      let rest =
        init_loop-Marked fuel n (addr + page_size) finish (i + 1)
          (record k {
            memory = store addr (message i) k.memory;
            reserved = mark (to_page addr) true k.reserved;
          })
          (omega arith) (omega arith) (omega arith) in
      record {
        after = rest.after;
        result = rw (more, there, init_loop) rest.result;
        reserved = λ p. rest.reserved p ∙ ground arith;
        area = rest.area;
        kept = rest.kept;
      }

  record Cleared (fuel n addr finish : ℕ) (k : Kernel) : Type 0 where
    after : Kernel
    result : exit_loop to_page fuel addr finish k ≡ some after
    reserved : (p : ℕ) → after.reserved p ≡ (not (among n addr p) && k.reserved p)
    area : after.vmalloc_area ≡ k.vmalloc_area
    kept : after.allocated ≡ k.allocated

  exit_loop-Cleared :
      (fuel n addr finish : ℕ) (k : Kernel)
      → finish ≡ addr + n * page_size
      → 0 < addr
      → n < fuel
      → Cleared fuel n addr finish k
  unfolding exit_loop among
  exit_loop-Cleared zero n addr finish k e real h = absurd (omega arith)
  exit_loop-Cleared (suc fuel) zero addr finish k e real h =
      let stop : ltb addr finish ≡ false = ground arith in
      record {
        after = k;
        result = rw (stop, exit_loop);
        reserved = λ p. refl;
        area = refl;
        kept = refl;
      }
  exit_loop-Cleared (suc fuel) (suc n) addr finish k e real h =
      let more : ltb addr finish ≡ true = ground arith in
      let there : (addr == 0) ≡ false = ground arith in
      let rest =
        exit_loop-Cleared fuel n (addr + page_size) finish
          (record k { reserved = mark (to_page addr) false k.reserved }) (omega arith) (omega arith)
          (omega arith) in
      record {
        after = rest.after;
        result = rw (more, there, exit_loop) rest.result;
        reserved = λ p. rest.reserved p ∙ ground arith;
        area = rest.area;
        kept = rest.kept;
      }

  -- When the registration and the allocation succeed, the entry reserves exactly the pages of its memory besides those
  -- reserved before, and the exit that follows it takes the reservation from exactly these pages:
  -- if none of them was reserved before, the reservations are then as before, and the memory is
  -- freed and the device not registered any more.
  pub mapdrv_exit-mapdrv_init :
      (result : ℤ) (area : ℕ) (k : Kernel)
      → is_negative result ≡ false
      → 0 < area
      → ((p : ℕ) → among 10 area p ≡ true → k.reserved p ≡ false)
      → (k1 k2 : Kernel) × (mapdrv_init to_page result area k ≡ some (pos 0, k1))
        × ((p : ℕ) → k1.reserved p ≡ (among 10 area p || k.reserved p))
        × (mapdrv_exit to_page k1 ≡ some k2)
        × ((p : ℕ) → k2.reserved p ≡ k.reserved p)
        × (k2.allocated ≡ false)
        × (k2.registered ≡ false)
  unfolding mapdrv_init mapdrv_exit
  mapdrv_exit-mapdrv_init result area k ok real free =
      let a =
        init_loop-Marked 11 10 area (area + maplen) 1
          (record k { vmalloc_area = area; allocated = not (area == 0); registered = true })
          (omega arith) real (omega arith) in
      let k1 = a.after in
      let b =
        exit_loop-Cleared 11 10 k1.vmalloc_area (k1.vmalloc_area + maplen) k1 (omega arith)
          (omega (arith, a.area)) (omega arith) in
      (
        k1,
        record (b.after) {
          allocated = if (b.after).vmalloc_area == 0 then (b.after).allocated else false;
          registered = false;
        },
        rw (ok, a.result),
        a.reserved,
        rw (b.result, mapdrv_exit),
        λ p.
            b.reserved p
            ∙ ap (λ start. not (among 10 start p) && k1.reserved p) a.area
            ∙ ground (arith, a.reserved p, free p),
        ground (arith, a.area, a.kept, b.area, b.kept),
        refl,
      )
