-- ===== src/MapDriver/Pages/Text.antt =====
-- exp2/exp2.4/map_driver.c: what the entry's loop writes into the pages.
use grade15_1linux.Common.{
  ℕ, not, ◌==◌, zero, suc, ◌+◌, ◌*◌, ◌≤◌, ◌<◌, ◌≡◌, ◌∙◌, refl, true, false, Option, none, some,
  Bool-cases, inl, inr, arith, [], ◌∷◌, Bytes, length, ltb, leb, ℤ, pos, is_negative, subst, sym,
  ap, table, table_entry, leb→le,
}
use grade15_1linux.MapDriver.{page_size, maplen}
use grade15_1linux.MapDriver.Pages.{message, store, Kernel, mark, init_loop, mapdrv_init}

-- The bytes stand in memory from an address on.
abbrev pub Holds : (ℕ → ℕ) → ℕ → Bytes → Type 0
Holds memory a [] = Unit {0}
Holds memory a (b ∷ bytes) = (memory a ≡ b) × Holds memory (a + 1) bytes

store_before :
    (a x : ℕ) (bytes : Bytes) (memory : ℕ → ℕ) → x < a → store a bytes memory x ≡ memory x
unfolding store
store_before a x [] memory h = refl
store_before a x (b ∷ bytes) memory h = ground (arith, store_before (a + 1) x bytes memory)

pub store_behind :
    (a x : ℕ) (bytes : Bytes) (memory : ℕ → ℕ)
    → a + length bytes ≤ x
    → store a bytes memory x ≡ memory x
unfolding store
store_behind a x [] memory h = refl
store_behind a x (b ∷ bytes) memory h = ground (arith, store_behind (a + 1) x bytes memory)

pub Holds-same :
    (a : ℕ) (bytes : Bytes) (memory memory' : ℕ → ℕ)
    → ((x : ℕ) → a ≤ x → x < a + length bytes → memory' x ≡ memory x)
    → Holds memory a bytes
    → Holds memory' a bytes
Holds-same a [] memory memory' same h = tt
Holds-same a (b ∷ bytes) memory memory' same h = (
  same a (omega arith) (omega arith) ∙ h.0,
  Holds-same (a + 1) bytes memory memory' (λ x lo hi. same x (omega arith) (omega arith)) h.1,
)

pub Holds-store : (a : ℕ) (bytes : Bytes) (memory : ℕ → ℕ) → Holds (store a bytes memory) a bytes
unfolding store
Holds-store a [] memory = tt
Holds-store a (b ∷ bytes) memory = (
  ground arith,
  Holds-same (a + 1) bytes (store (a + 1) bytes memory) (store a (b ∷ bytes) memory)
      (λ x lo hi. ground arith) (Holds-store (a + 1) bytes memory),
)

-- What the loop leaves of `n` pages from `addr` on, numbered from `i` on: each begins with its text,
-- and nothing below them has changed.
record Written (n addr i : ℕ) (k k' : Kernel) : Type 0 where
  texts : (j : ℕ) → j < n → Holds k'.memory (addr + j * page_size) (message (i + j))
  below : (x : ℕ) → x < addr → k'.memory x ≡ k.memory x

-- The texts fit into their pages.
abbrev Fit : ℕ → ℕ → Type 0
Fit n i = (j : ℕ) → j < n → length (message (i + j)) ≤ page_size

texts_table : table (λ j. leb (length (message (1 + j))) page_size) 10 ≡ true
unfolding table message
texts_table = refl

short : Fit 10 1
short j h =
    leb→le (length (message (1 + j))) page_size
      (table_entry (λ j. leb (length (message (1 + j))) page_size) 10 j h texts_table)

record Looped (to_page : ℕ → ℕ) (fuel n addr finish i : ℕ) (k : Kernel) : Type 0 where
  after : Kernel
  result : init_loop to_page fuel addr finish i k ≡ some after
  written : Written n addr i k after
  area : after.vmalloc_area ≡ k.vmalloc_area

module _ (to_page : ℕ → ℕ) where
  abbrev one_page : ℕ → ℕ → Kernel → Kernel
  one_page addr i k = record k {
    memory = store addr (message i) k.memory;
    reserved = mark (to_page addr) true k.reserved;
  }

  all_texts :
      (n addr i : ℕ) (k k' : Kernel)
      → length (message i) ≤ page_size
      → Written n (addr + page_size) (i + 1) (one_page addr i k) k'
      → (j : ℕ) → j < suc n
      → Holds k'.memory (addr + j * page_size) (message (i + j))
  all_texts n addr i k k' fits w zero h =
      let here : addr + 0 * page_size ≡ addr = omega arith in
      let this : i + 0 ≡ i = omega arith in
      rw (here, this)
        (Holds-same addr (message i) (store addr (message i) k.memory) k'.memory
          (λ x lo hi. w.below x (omega arith)) (Holds-store addr (message i) k.memory))
  all_texts n addr i k k' fits w (suc j) h =
      let there : addr + suc j * page_size ≡ addr + page_size + j * page_size = omega arith in
      let that : i + suc j ≡ i + 1 + j = omega arith in
      subst (λ a. Holds k'.memory a (message (i + suc j))) (sym there)
        (subst (λ m. Holds k'.memory (addr + page_size + j * page_size) (message m)) (sym that)
          (w.texts j (omega arith)))

  init_loop-Written :
      (fuel n addr finish i : ℕ) (k : Kernel)
      → finish ≡ addr + n * page_size
      → 0 < addr
      → n < fuel
      → Fit n i
      → Looped to_page fuel n addr finish i k
  unfolding init_loop
  init_loop-Written zero n addr finish i k e real h fit = absurd (omega arith)
  init_loop-Written (suc fuel) zero addr finish i k e real h fit =
      let stop : ltb addr finish ≡ false = ground arith in
      record {
        after = k;
        result = rw (stop, init_loop);
        written = record { texts = λ j lt. absurd (omega arith); below = λ x lt. refl };
        area = refl;
      }
  init_loop-Written (suc fuel) (suc n) addr finish i k e real h fit =
      let more : ltb addr finish ≡ true = ground arith in
      let there : (addr == 0) ≡ false = ground arith in
      let k1 = one_page addr i k in
      let this : i + 0 ≡ i = omega arith in
      let fits : length (message i) ≤ page_size =
        subst (λ m. length (message m) ≤ page_size) this (fit 0 (omega arith)) in
      let rest =
        init_loop-Written fuel n (addr + page_size) finish (i + 1) k1 (omega arith) (omega arith)
          (omega arith)
          (λ j lt.
            subst (λ m. length (message m) ≤ page_size) (omega arith)
              (fit (suc j) (omega arith))) in
      record {
        after = rest.after;
        result = rw (more, there, init_loop) rest.result;
        written = record {
          texts = all_texts n addr i k rest.after fits rest.written;
          below = λ x lt.
              rest.written.below x (omega arith) ∙ store_before addr x (message i) k.memory lt;
        };
        area = rest.area;
      }

  mapdrv_init_null :
      (result : ℤ) (k : Kernel) → is_negative result ≡ false → mapdrv_init to_page result 0 k ≡ none
  unfolding mapdrv_init init_loop
  mapdrv_init_null result k ok = rw ok refl

  pub mapdrv_init_filled :
      (result : ℤ) (area : ℕ) (k : Kernel)
      → is_negative result ≡ false
      → 0 < area
      → (k' : Kernel) × (mapdrv_init to_page result area k ≡ some (pos 0, k'))
        × ((j : ℕ) → j < 10 → Holds k'.memory (area + j * page_size) (message (1 + j)))
        × ((x : ℕ) → x < area → k'.memory x ≡ k.memory x)
  unfolding mapdrv_init
  mapdrv_init_filled result area k ok real =
      let k1 = record k { vmalloc_area = area; allocated = not (area == 0); registered = true } in
      let r =
        init_loop-Written 11 10 area (area + maplen) 1 k1 (omega arith) real (omega arith) short in
      (r.after, rw (ok, r.result), r.written.texts, r.written.below)

  -- How a load ends: with the error of the registration and nothing changed; by a fault, where
  -- `vmalloc` returned NULL; or with the texts in the pages.
  pub data Entered (result : ℤ) (area : ℕ) (k : Kernel) (r : Option (ℤ × Kernel)) : Type 0 where
    refused : is_negative result ≡ true → r ≡ some (result, k) → Entered result area k r
    faulted : is_negative result ≡ false → area ≡ 0 → r ≡ none → Entered result area k r
    filled :
        is_negative result ≡ false
        → 0 < area
        → (k' : Kernel) → r ≡ some (pos 0, k')
        → ((j : ℕ) → j < 10 → Holds k'.memory (area + j * page_size) (message (1 + j)))
        → ((x : ℕ) → x < area → k'.memory x ≡ k.memory x)
        → Entered result area k r

  -- Every load ends in one of three ways. When the registration fails, its error is returned and
  -- nothing has changed. When it succeeds and `vmalloc` returns NULL, which nothing tests, the
  -- entry faults. Otherwise it ends, within the eleven rounds, with the value 0, page number j of
  -- the ten pages from the address that `vmalloc` returned begins with "test j+1" and a NUL, and
  -- below that address no byte has changed.
  pub mapdrv_init-Entered :
      (result : ℤ) (area : ℕ) (k : Kernel)
      → Entered result area k (mapdrv_init to_page result area k)
  unfolding mapdrv_init
  mapdrv_init-Entered result area k = elim (Bool-cases (is_negative result)) [
    | inl bad ↦ refused bad (rw bad refl)
    | inr ok ↦ elim (Bool-cases (area == 0)) [
      | inl null ↦
          let at_null : area ≡ 0 = ground arith in
          faulted ok at_null
            (ap (λ a. mapdrv_init to_page result a k) at_null ∙ mapdrv_init_null result k ok)
      | inr real ↦
          let place : 0 < area = ground arith in
          let (k', ended, texts, below) = mapdrv_init_filled result area k ok place in
          filled ok place k' ended texts below
    ]
  ]

  -- The variable `vmalloc_area` is then the address that `vmalloc` returned.
  pub mapdrv_init_area :
      (result : ℤ) (area : ℕ) (k : Kernel) (code : ℤ) (k' : Kernel)
      → is_negative result ≡ false
      → 0 < area
      → mapdrv_init to_page result area k ≡ some (code, k')
      → k'.vmalloc_area ≡ area
  unfolding mapdrv_init
  mapdrv_init_area result area k code k' ok real e =
      let k1 = record k { vmalloc_area = area; allocated = not (area == 0); registered = true } in
      let r =
        init_loop-Written 11 10 area (area + maplen) 1 k1 (omega arith) real (omega arith) short in
      let loaded : mapdrv_init to_page result area k ≡ some (pos 0, r.after) =
        rw (ok, r.result) refl in
      let same : k' ≡ r.after = cc (e, loaded) in ap (λ (s : Kernel). s.vmalloc_area) same ∙ r.area
