-- ===== src/Counter/Ending.antt =====
-- exp1/exp1.4.c and exp3/exp3.2.c: no deadlock, termination, and the number that `main` prints.
use grade15_1linux.Common.{
  ℕ, ◌+◌, ◌-◌, ◌*◌, ◌≤◌, ◌≡◌, ◌≢◌, ◌⊎◌, inl, inr, ◌==◌, leb, refl, some, arith, max, ap, subst,
  Bool-cases,
}
use grade15_1linux.Counter.{
  Point, waiting, testing, loading, storing, posting, leaving, exited, advance, System, Step, step1,
  step2, Run,
}
use grade15_1linux.Counter.Threads.{holds, rank, Knows, Run-Inv}

-- Both threads are behind `pthread_exit`, so that `main` has joined them.
abbrev pub IsJoined : System → Type 0
IsJoined s = (s.thread1 ≡ exited) × (s.thread2 ≡ exited)

-- A thread that has not exited goes on if the semaphore is free or its own.
advance_ready :
    (limit m d : ℕ) (p : Point)
    → p ≢ exited
    → m + holds p ≡ 1
    → (t : Point × ℕ × ℕ) × (advance limit p m d ≡ some t)
unfolding advance
advance_ready limit m d waiting ne one = ((testing, m - 1, d), ground arith)
advance_ready limit m d testing ne one = elim (Bool-cases (leb limit d)) [
  | inl z ↦ ((leaving, m, d), rw z)
  | inr z ↦ ((loading, m, d), rw z)
]
advance_ready limit m d loading ne one = ((storing d, m, d), refl)
advance_ready limit m d (storing n) ne one = ((posting, m, n + 1), refl)
advance_ready limit m d posting ne one = ((waiting, m + 1, d), refl)
advance_ready limit m d leaving ne one = ((exited, m + 1, d), refl)
advance_ready limit m d exited ne one = absurd (ne refl)

exited-cases : (p : Point) → (p ≡ exited) ⊎ (p ≢ exited)
exited-cases exited = inl refl
exited-cases waiting = inr (λ e. absurd (cc))
exited-cases testing = inr (λ e. absurd (cc))
exited-cases loading = inr (λ e. absurd (cc))
exited-cases (storing n) = inr (λ e. absurd (cc))
exited-cases posting = inr (λ e. absurd (cc))
exited-cases leaving = inr (λ e. absurd (cc))

-- Unless both have exited, one of the threads has not, and the semaphore is free or its own.
turn :
    (m : ℕ) (p q : Point)
    → m + holds p + holds q ≡ 1
    → ((p ≡ exited) × (q ≡ exited))
      ⊎ (((p ≢ exited) × (m + holds p ≡ 1)) ⊎ ((q ≢ exited) × (m + holds q ≡ 1)))
turn m p q one = elim (exited-cases p) [
  | inl a ↦ elim (exited-cases q) [
    | inl b ↦ inl (a, b)
    | inr b ↦ inr (inr (b, omega (arith, ap holds a)))
  ]
  | inr a ↦ elim (exited-cases q) [
    | inl b ↦ inr (inl (a, omega (arith, ap holds b)))
    | inr b ↦ elim (Bool-cases (holds q == 0)) [
      | inl z ↦ inr (inl (a, ground arith))
      | inr z ↦ inr (inr (b, ground arith))
    ]
  ]
]

-- No interleaving is stuck: as long as one of the threads has not exited, some thread has a next
-- step.
pub Run_progress :
    {limit1 limit2 n : ℕ} {s : System}
    → Run limit1 limit2 n s
    → IsJoined s ⊎ ((t : System) × Step limit1 limit2 s t)
Run_progress {limit1} {limit2} {n} {s} run =
    elim (turn s.semaphore s.thread1 s.thread2 (Run-Inv run).one) [
      | inl both ↦ inl both
      | inr (inl (ne, one)) ↦
          let ((p, m, d), e) = advance_ready limit1 s.semaphore s.shared_data s.thread1 ne one in
          inr (_, step1 e)
      | inr (inr (ne, one)) ↦
          let ((p, m, d), e) = advance_ready limit2 s.semaphore s.shared_data s.thread2 ne one in
          inr (_, step2 e)
    ]

-- No interleaving goes on for ever: it has at most five steps for each unit of the larger limit and
-- six more, and the variable never exceeds that limit.
pub Run_bounded :
    {limit1 limit2 n : ℕ} {s : System}
    → Run limit1 limit2 n s
    → (n ≤ 5 * max limit1 limit2 + 6) × (s.shared_data ≤ max limit1 limit2)
Run_bounded {limit1} {limit2} {n} {s} run =
    let i = Run-Inv run in let spent = i.spent in (omega arith, i.bounded)

-- When both threads have exited, in whatever order they ran, the variable, which `main` then prints,
-- is the larger of the two limits, the semaphore is free, and exactly five steps for each unit of
-- this limit and six more have been made.
pub Run_final :
    {limit1 limit2 n : ℕ} {s : System}
    → Run limit1 limit2 n s
    → IsJoined s
    → (s.shared_data ≡ max limit1 limit2) × (n ≡ 5 * max limit1 limit2 + 6) × (s.semaphore ≡ 1)
Run_final {limit1} {limit2} {n} {s} run both =
    let i = Run-Inv run in
    let reached1 : limit1 ≤ s.shared_data = subst (Knows limit1 s.shared_data) both.0 i.knows1 in
    let reached2 : limit2 ≤ s.shared_data = subst (Knows limit2 s.shared_data) both.1 i.knows2 in
    let bounded = i.bounded in
    let value : s.shared_data ≡ max limit1 limit2 = omega arith in
    (
      value,
      omega (arith, i.spent, ap rank both.0, ap rank both.1),
      omega (arith, i.one, ap holds both.0, ap holds both.1),
    )
