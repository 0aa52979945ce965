-- ===== src/BlockDevice/Module/Resources.antt =====
-- exp4/exp_4_2.c: what the driver holds of the kernel after its entry and its exit.
use grade15_1linux.Common.{
  ℕ, ◌≡◌, ◌==◌, if◌then◌else◌, refl, Option, none, some, List, [], ◌∷◌, arith, ℤ, pos, negsuc,
  enomem, is_negative, natural, true, Option-cases, Bool-cases, inl, inr,
}
use grade15_1linux.BlockDevice.Module.{
  QueuePtr, queue_at, Call, vmalloc, register_blkdev, blk_mq_init_queue, alloc_disk, put_disk,
  blk_cleanup_queue, unregister_blkdev, vfree, Answers, Driver, error_of, exp_4_2_init,
  exp_4_2_exit,
}

-- The addresses and the major number that the kernel has given and not taken back.
pub record Held : Type 0 where
  pub memory : Option ℕ
  pub major : Option ℕ
  pub queue : Option ℕ
  pub disk : Option ℕ

abbrev pub nothing : Held
nothing = record { memory = none; major = none; queue = none; disk = none }

-- A resource is gone once it is given back itself.
abbrev pub without : Option ℕ → Option ℕ → Option ℕ
without (some a) (some b) = if a == b then none else some a
without h _ = h

abbrev pub number : ℤ → Option ℕ
number (pos n) = some n
number (negsuc n) = none

abbrev pub address : QueuePtr → Option ℕ
address (queue_at q) = some q
address _ = none

unfoldable pub held : List Call → Held
held [] = nothing
held (vmalloc _ (some p) ∷ calls) = record (held calls) { memory = some p }
held (register_blkdev (pos n) ∷ calls) = record (held calls) { major = some n }
held (blk_mq_init_queue (queue_at q) ∷ calls) = record (held calls) { queue = some q }
held (alloc_disk (some g) ∷ calls) = record (held calls) { disk = some g }
held (put_disk g ∷ calls) = record (held calls) { disk = without (held calls).disk (some g) }
held (blk_cleanup_queue q ∷ calls) = record (held calls) {
  queue = without (held calls).queue (address q);
}
held (unregister_blkdev n ∷ calls) = record (held calls) {
  major = without (held calls).major (number n);
}
held (vfree p ∷ calls) = record (held calls) { memory = without (held calls).memory p }
held (_ ∷ calls) = held calls

-- How a load of the module ends, from a state that holds nothing.
pub data Loaded (a : Answers) (code : ℤ) (h : Held) : Type 0 where
  memory_failed : a.memory ≡ none → code ≡ enomem → h ≡ nothing → Loaded a code h
  major_failed :
      is_negative a.major ≡ true
      → code ≡ a.major
      → h ≡ record nothing { memory = a.memory }
      → Loaded a code h
  queue_failed :
      (e : ℤ)
      → error_of a.queue ≡ some e
      → code ≡ e
      → h ≡ record nothing { memory = a.memory; major = number a.major }
      → Loaded a code h
  disk_failed :
      a.disk ≡ none → code ≡ enomem → h ≡ record nothing { memory = a.memory } → Loaded a code h
  done :
      (m n g : ℕ)
      → a.memory ≡ some m
      → a.major ≡ pos n
      → error_of a.queue ≡ none
      → a.disk ≡ some g
      → code ≡ pos 0
      → h ≡ record { memory = some m; major = some n; queue = address a.queue; disk = some g }
      → Loaded a code h

-- From a state that holds nothing, `exp_4_2_init` ends with the value 0 only if the memory, the
-- registration, the queue and the disk were all given, and it then holds all of them; or it ends with
-- the error of a call that failed. A failure of the memory leaves nothing behind; one of the registration or of the disk
-- leaves the 16 MB of memory, and one of the queue the memory and the major number.
pub exp_4_2_init-Loaded :
    (a : Answers) (d : Driver)
    → held d.calls ≡ nothing
    → Loaded a (exp_4_2_init a d).0 (held (exp_4_2_init a d).1.calls)
unfolding exp_4_2_init held
exp_4_2_init-Loaded a d fresh = elim (Option-cases a.memory) [
  | inl e ↦ simp (e, exp_4_2_init) (memory_failed e refl (ground arith))
  | inr (m, e) ↦ elim (Bool-cases (is_negative a.major)) [
    | inl f ↦ simp (e, f, exp_4_2_init) (major_failed f refl (ground arith))
    | inr f ↦ elim (Option-cases (error_of a.queue)) [
      | inr (c, g) ↦ simp (e, f, g, exp_4_2_init) (queue_failed c g refl (ground arith))
      | inl g ↦ elim (Option-cases a.disk) [
        | inl i ↦ simp (e, f, g, i, exp_4_2_init) (disk_failed i refl (ground arith))
        | inr (k, i) ↦
            let (n, natural_major) = natural a.major f in
            simp (e, f, g, i, exp_4_2_init)
              (done m n k e natural_major g i refl (ground (arith, natural_major)))
      ]
    ]
  ]
]

-- From a state that holds nothing, a load that reports success and the exit leave nothing held.
pub exp_4_2_exit-exp_4_2_init :
    (a : Answers) (d : Driver)
    → held d.calls ≡ nothing
    → (exp_4_2_init a d).0 ≡ pos 0
    → held (exp_4_2_exit (exp_4_2_init a d).1).calls ≡ nothing
unfolding exp_4_2_init exp_4_2_exit held
exp_4_2_exit-exp_4_2_init a d fresh loaded = ground arith
