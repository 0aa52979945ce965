-- ===== src/ProcHello/Lifetime.antt =====
-- exp3/exp3.1.c: which entries of /proc the module has between its entry and its exit.
use grade15_1linux.Common.{
  ℕ, ◌≡◌, ◌==◌, if◌then◌else◌, Option, none, some, List, [], ◌∷◌, arith, ℤ, pos, enomem, refl,
  Option-cases, inl, inr,
}
use grade15_1linux.ProcHello.{
  Call, proc_mkdir, proc_create, remove_file, remove_dir, ProcFs, Module, initexp3_1, exitexp3_1,
}

-- The directory that exists after some calls, and the directory that the file is in.
pub record Entries : Type 0 where
  pub dir : Option ℕ
  pub file : Option ℕ

abbrev pub nothing : Entries
nothing = record { dir = none; file = none }

-- The file is removed by the directory that it is in, and the directory once it is empty.
abbrev pub removed : Option ℕ → Option ℕ → Option ℕ
removed (some d) (some p) = if d == p then none else some d
removed file _ = file

abbrev pub emptied : Option ℕ → Option ℕ → Option ℕ
emptied none _ = none
emptied (some _) dir = dir

unfoldable pub entries : List Call → Entries
entries [] = nothing
entries (proc_mkdir (some d) ∷ calls) = record (entries calls) { dir = some d }
entries (proc_create parent (some _) ∷ calls) = record (entries calls) { file = parent }
entries (remove_file parent ∷ calls) = record (entries calls) {
  file = removed (entries calls).file parent;
}
entries (remove_dir ∷ calls) = record (entries calls) {
  dir = emptied (entries calls).file (entries calls).dir;
}
entries (_ ∷ calls) = entries calls

-- How a load of the module ends, from a state with no entries.
pub data Loaded (k : ProcFs) (code : ℤ) (e : Entries) : Type 0 where
  done : code ≡ pos 0 → e ≡ record { dir = k.mkdir; file = k.mkdir } → Loaded k code e
  no_dir : k.mkdir ≡ none → code ≡ enomem → e ≡ nothing → Loaded k code e
  no_file :
      k.create ≡ none → code ≡ enomem → e ≡ record { dir = k.mkdir; file = none } → Loaded k code e

-- From a state with no entries, the entry function makes both entries and returns 0, or returns
-- -ENOMEM: with no entry if the directory failed, and with the directory still there if the file
-- failed.
pub initexp3_1-Loaded :
    (k : ProcFs) (m : Module)
    → entries m.calls ≡ nothing
    → let (code, m') = initexp3_1 k m in Loaded k code (entries m'.calls)
unfolding initexp3_1 entries
initexp3_1-Loaded k m fresh = elim (Option-cases k.mkdir) [
  | inl e ↦ simp (e, initexp3_1) (no_dir e refl fresh)
  | inr (dir, e) ↦
      simp (e, initexp3_1)
        (elim (Option-cases k.create) [
          | inl f ↦ simp f (no_file f refl (ground arith))
          | inr (file, f) ↦ simp f (done refl (ground arith))
        ])
]

-- A load that succeeds and the exit function leave no entry behind.
pub exitexp3_1-initexp3_1 :
    (k : ProcFs) (m : Module)
    → entries m.calls ≡ nothing
    → (initexp3_1 k m).0 ≡ pos 0
    → entries (exitexp3_1 (initexp3_1 k m).1).calls ≡ nothing
unfolding initexp3_1 exitexp3_1 entries
exitexp3_1-initexp3_1 k m fresh loaded = ground arith
