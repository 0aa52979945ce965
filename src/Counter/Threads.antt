-- ===== src/Counter/Threads.antt =====
-- exp1/exp1.4.c and exp3/exp3.2.c: mutual exclusion, and the count of the steps.
use grade15_1linux.Common.{
  along, ℕ, ◌+◌, ◌-◌, ◌*◌, ◌≤◌, ◌<◌, ◌≡◌, ◌↔◌, ◌==◌, leb, refl, some, arith, max, Bool-cases, inl,
  inr,
}
use grade15_1linux.Counter.{
  Point, waiting, testing, loading, storing, posting, leaving, exited, advance, System, Step, step1,
  step2, Run, start, next,
}

-- 1 for a thread between its `sem_wait` and its `sem_post`.
abbrev pub holds : Point → ℕ
holds waiting = 0
holds exited = 0
holds _ = 1

-- What a thread with a limit knows of `sharedData` where it is.
abbrev pub Knows : ℕ → ℕ → Point → Type 0
Knows limit d loading = d < limit
Knows limit d (storing n) = (n ≡ d) × (d < limit)
Knows limit d leaving = limit ≤ d
Knows limit d exited = limit ≤ d
Knows limit d _ = Unit {0}

-- The steps that a thread still takes of itself, where each unit of `sharedData` stands for five.
abbrev pub rank : Point → ℕ
rank waiting = 3
rank testing = 2
rank loading = 1
rank (storing n) = 0
rank posting = 4
rank leaving = 1
rank exited = 0

-- What one step of a thread at `p`, beside a thread at `q`, leaves.
record Kept (limit k top d : ℕ) (p q : Point) (t : Point × ℕ × ℕ) : Type 0 where
  one : t.1 + holds t.0 + holds q ≡ 1
  mine : Knows limit t.2 t.0
  others : Knows k t.2 q
  bounded : t.2 ≤ top
  spent : 5 * (top - t.2) + rank t.0 + 1 ≡ 5 * (top - d) + rank p

-- A store keeps what the other thread knows: it does not hold the semaphore.
others_kept : (k d : ℕ) (q : Point) → holds q ≡ 0 → Knows k d q → Knows k (d + 1) q
others_kept k d waiting free h = tt
others_kept k d exited free h = omega arith
others_kept k d testing free h = absurd (omega arith)
others_kept k d loading free h = absurd (omega arith)
others_kept k d (storing n) free h = absurd (omega arith)
others_kept k d posting free h = absurd (omega arith)
others_kept k d leaving free h = absurd (omega arith)

advance-Kept :
    (limit k top m d : ℕ) (p q : Point) (t : Point × ℕ × ℕ)
    → advance limit p m d ≡ some t
    → m + holds p + holds q ≡ 1
    → Knows limit d p
    → Knows k d q
    → d ≤ top
    → limit ≤ top
    → Kept limit k top d p q t
unfolding advance
advance-Kept limit k top m d waiting q t e one mine others low l = elim (Bool-cases (m == 0)) [
  | inl z ↦ let e' = rw z at e in absurd (cc)
  | inr z ↦
      let e' = rw z at e in
      along (Kept limit k top d waiting q) e' (record {
        one = ground arith;
        mine = tt;
        others = others;
        bounded = low;
        spent = omega arith;
      })
]
advance-Kept limit k top m d testing q t e one mine others low l = elim (Bool-cases (leb limit d)) [
  | inl z ↦
      let e' = rw z at e in
      along (Kept limit k top d testing q) e' (record {
        one = one;
        mine = ground arith;
        others = others;
        bounded = low;
        spent = omega arith;
      })
  | inr z ↦
      let e' = rw z at e in
      along (Kept limit k top d testing q) e' (record {
        one = one;
        mine = ground arith;
        others = others;
        bounded = low;
        spent = omega arith;
      })
]
advance-Kept limit k top m d loading q t e one mine others low l =
    along (Kept limit k top d loading q) e (record {
      one = one;
      mine = (refl, mine);
      others = others;
      bounded = low;
      spent = omega arith;
    })
advance-Kept limit k top m d (storing n) q t e one mine others low l =
    along (Kept limit k top d (storing n) q) e (record {
      one = one;
      mine = tt;
      others = rw mine.0 (others_kept k d q (omega arith) others);
      bounded = omega (arith, mine);
      spent = omega (arith, mine);
    })
advance-Kept limit k top m d posting q t e one mine others low l =
    along (Kept limit k top d posting q) e
      (record { one = omega arith; mine = tt; others = others; bounded = low; spent = omega arith })
advance-Kept limit k top m d leaving q t e one mine others low l =
    along (Kept limit k top d leaving q) e (record {
      one = omega arith;
      mine = mine;
      others = others;
      bounded = low;
      spent = omega arith;
    })
advance-Kept limit k top m d exited q t e one mine others low l = absurd (cc)

-- What every interleaving keeps.
pub record Inv (limit1 limit2 n : ℕ) (s : System) : Type 0 where
  pub one : s.semaphore + holds s.thread1 + holds s.thread2 ≡ 1
  pub knows1 : Knows limit1 s.shared_data s.thread1
  pub knows2 : Knows limit2 s.shared_data s.thread2
  pub bounded : s.shared_data ≤ max limit1 limit2
  pub spent :
      n + 5 * (max limit1 limit2 - s.shared_data) + rank s.thread1 + rank s.thread2
      ≡ 5 * max limit1 limit2 + 6

Step-Inv :
    (limit1 limit2 n : ℕ) (s t : System)
    → Step limit1 limit2 s t
    → Inv limit1 limit2 n s
    → Inv limit1 limit2 (1 + n) t
Step-Inv limit1 limit2 n s t (step1 {p} {m} {d} e) i =
    let k =
      advance-Kept limit1 limit2 (max limit1 limit2) s.semaphore s.shared_data s.thread1 s.thread2
        (p, m, d) e i.one i.knows1 i.knows2 i.bounded (omega arith) in
    record {
      one = k.one;
      knows1 = k.mine;
      knows2 = k.others;
      bounded = k.bounded;
      spent = omega (arith, k.spent, i.spent);
    }
Step-Inv limit1 limit2 n s t (step2 {p} {m} {d} e) i =
    let one = i.one in
    let k =
      advance-Kept limit2 limit1 (max limit1 limit2) s.semaphore s.shared_data s.thread2 s.thread1
        (p, m, d) e (omega arith) i.knows2 i.knows1 i.bounded (omega arith) in
    let after = k.one in
    record {
      one = omega arith;
      knows1 = k.others;
      knows2 = k.mine;
      bounded = k.bounded;
      spent = omega (arith, k.spent, i.spent);
    }

pub Run-Inv : {limit1 limit2 n : ℕ} {s : System} → Run limit1 limit2 n s → Inv limit1 limit2 n s
Run-Inv {limit1} {limit2} start = record {
  one = refl;
  knows1 = tt;
  knows2 = tt;
  bounded = omega arith;
  spent = omega arith;
}
Run-Inv {limit1} {limit2} (next {n} {s} {t} run step) =
    Step-Inv limit1 limit2 n s t step (Run-Inv run)

-- In every interleaving, at most one of the two threads is between its `sem_wait` and its `sem_post`;
-- the semaphore is 1 exactly while none is; and what a thread has read of `sharedData` is still true
-- where it stands: so the number loaded in `sharedData++` is that of the variable when one more is
-- stored, below the thread's limit, and a thread that exits has found its limit reached.
pub Run_exclusive :
    {limit1 limit2 n : ℕ} {s : System}
    → Run limit1 limit2 n s
    → (holds s.thread1 + holds s.thread2 ≤ 1)
      × ((s.semaphore ≡ 1) ↔ (holds s.thread1 + holds s.thread2 ≡ 0))
      × Knows limit1 s.shared_data s.thread1
      × Knows limit2 s.shared_data s.thread2
Run_exclusive run =
    let i = Run-Inv run in
    let one = i.one in (omega arith, (λ e. omega arith, λ e. omega arith), i.knows1, i.knows2)
