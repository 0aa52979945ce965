-- ===== src/Ramdisk/Module/Resources.antt =====
-- exp4/exp_4_2_original.c: what the driver holds of the kernel after its entry and its exit.
use grade15_1linux.Common.{
  ℕ, ◌≡◌, refl, Bool, true, false, Option, none, some, List, [], ◌∷◌, arith, ℤ, pos, negsuc, ◌==◌,
  enomem, is_negative, natural, if◌then◌else◌, Option-cases, Bool-cases, inl, inr,
}
use grade15_1linux.Ramdisk.Module.{
  Call, vmalloc, blk_init_queue, register_blkdev, alloc_disk, add_disk, del_gendisk, put_disk,
  unregister_blkdev, blk_cleanup_queue, vfree, Answers, Driver, my_init_original, my_exit_original,
}

-- The addresses and the major number that the kernel has given and not taken back.
pub record Held : Type 0 where
  pub memory : Option ℕ
  pub queue : Option ℕ
  pub major : Option ℕ
  pub disk : Option ℕ
  pub added : Bool

abbrev pub nothing : Held
nothing = record { memory = none; queue = none; major = none; disk = none; added = false }

abbrev pub queue_only : Option ℕ → Held
queue_only q = record nothing { queue = q }

-- What is left of a resource after one is given back: it is gone only if it is that one.
abbrev pub release : Option ℕ → Option ℕ → Option ℕ
release (some a) (some b) = if a == b then none else some a
release h _ = h

abbrev pub number : ℤ → Option ℕ
number (pos n) = some n
number (negsuc n) = none

-- What is held after some calls, the last one first: a call that failed brings nothing.
unfoldable pub held : List Call → Held
held [] = nothing
held (vmalloc _ (some p) ∷ calls) = record (held calls) { memory = some p }
held (blk_init_queue (some q) ∷ calls) = record (held calls) { queue = some q }
held (register_blkdev (pos n) ∷ calls) = record (held calls) { major = some n }
held (alloc_disk (some g) ∷ calls) = record (held calls) { disk = some g }
held (add_disk _ ∷ calls) = record (held calls) { added = true }
held (del_gendisk _ ∷ calls) = record (held calls) { added = false }
held (put_disk g ∷ calls) = record (held calls) { disk = release (held calls).disk g }
held (unregister_blkdev n ∷ calls) = record (held calls) {
  major = release (held calls).major (number n);
}
held (blk_cleanup_queue q ∷ calls) = record (held calls) { queue = release (held calls).queue q }
held (vfree p ∷ calls) = record (held calls) { memory = release (held calls).memory p }
held (_ ∷ calls) = held calls

-- How a load of the module ends, from a state that holds nothing.
pub data Loaded (a : Answers) (code : ℤ) (h : Held) : Type 0 where
  no_memory : a.memory ≡ none → code ≡ enomem → h ≡ nothing → Loaded a code h
  no_queue : a.queue ≡ none → code ≡ enomem → h ≡ nothing → Loaded a code h
  no_major : is_negative a.major ≡ true → code ≡ a.major → h ≡ queue_only a.queue → Loaded a code h
  no_disk : a.disk ≡ none → code ≡ enomem → h ≡ queue_only a.queue → Loaded a code h
  done :
      (m q n g : ℕ)
      → a.memory ≡ some m
      → a.queue ≡ some q
      → a.major ≡ pos n
      → a.disk ≡ some g
      → code ≡ pos 0
      → h ≡ record { memory = some m; queue = some q; major = some n; disk = some g; added = true }
      → Loaded a code h

-- From a state that holds nothing, `my_init` ends with the value 0 only if the memory, the queue, the
-- registration and the disk were all given, and it then holds all of them; or it ends with an error: it then holds nothing if the memory or the queue failed, but still the request queue if the
-- registration or the disk failed.
pub my_init_original-Loaded :
    (a : Answers) (diskmb : ℕ) (d : Driver)
    → held d.calls ≡ nothing
    → Loaded a (my_init_original a diskmb d).0 (held (my_init_original a diskmb d).1.calls)
unfolding my_init_original held
my_init_original-Loaded a diskmb d fresh = elim (Option-cases a.memory) [
  | inl e ↦ simp (e, my_init_original) (no_memory e refl (ground arith))
  | inr (m, e) ↦ elim (Option-cases a.queue) [
    | inl f ↦ simp (e, f, my_init_original) (no_queue f refl (ground arith))
    | inr (q, f) ↦ elim (Bool-cases (is_negative a.major)) [
      | inl g ↦ simp (e, f, g, my_init_original) (no_major g refl (ground arith))
      | inr g ↦ elim (Option-cases a.disk) [
        | inl i ↦ simp (e, f, g, i, my_init_original) (no_disk i refl (ground arith))
        | inr (k, i) ↦
            let (n, natural_major) = natural a.major g in
            simp (e, f, g, i, my_init_original)
              (done m q n k e f natural_major i refl (ground (arith, natural_major)))
      ]
    ]
  ]
]

-- From a state that holds nothing, a load that reports success and the exit leave nothing held.
pub my_exit_original-my_init_original :
    (a : Answers) (diskmb : ℕ) (d : Driver)
    → held d.calls ≡ nothing
    → (my_init_original a diskmb d).0 ≡ pos 0
    → held (my_exit_original (my_init_original a diskmb d).1).calls ≡ nothing
unfolding my_init_original my_exit_original held
my_exit_original-my_init_original a diskmb d fresh loaded = ground arith
