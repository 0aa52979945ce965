-- ===== src/Pipe/Points.antt =====
-- exp1/exp1.5.c: what the steps of the parent change, and one child of the two.
use grade15_1linux.Common.{
  ℕ, suc, ◌+◌, ◌≤◌, ◌≡◌, ◌≢◌, refl, arith, Bool, true, false, List, [], ◌∷◌, ◌++◌, Bytes, text,
}
use grade15_1linux.Pipe.{
  Who, first, second, Child, Parent, forking1, forking2, waiting1, reading1, printing1, waiting2,
  reading2, printing2, finished, behind, IsFork, fork1, fork2, IsWait, wait1, wait2, IsRead, read1,
  read2, IsPrint, print1, print2, pick,
}

-- The reads and the waits behind the parent, the lines it has read as far as they are or will be printed,
-- and the children that it has not made yet.
abbrev pub reads : Parent → ℕ
reads printing1 = 1
reads waiting2 = 1
reads reading2 = 1
reads printing2 = 2
reads finished = 2
reads _ = 0

abbrev pub waits : Parent → ℕ
waits forking1 = 0
waits forking2 = 0
waits waiting1 = 0
waits reading1 = 1
waits printing1 = 1
waits waiting2 = 1
waits _ = 2

abbrev pub said : Parent → Bytes → List Bytes → List Bytes
said printing1 inpipe printed = printed ++ text inpipe ∷ []
said printing2 inpipe printed = printed ++ text inpipe ∷ []
said _ inpipe printed = printed

abbrev pub future : Parent → Who → Bool
future forking1 c = true
future forking2 second = true
future _ c = false

-- The steps of the parent and of its children that are left at most.
abbrev pub ahead : Parent → ℕ
ahead forking1 = 18
ahead forking2 = 12
ahead waiting1 = 6
ahead reading1 = 5
ahead printing1 = 4
ahead waiting2 = 3
ahead reading2 = 2
ahead printing2 = 1
ahead finished = 0

-- A step of the parent with so many waits, reads and new steps of a child by it.
pub record Moves (w r k : ℕ) (p : Parent) : Type 0 where
  pub waits_behind : waits (behind p) ≡ w + waits p
  pub reads_behind : reads (behind p) ≡ r + reads p
  pub future_behind : (d : Who) → future (behind p) d ≡ true → future p d ≡ true
  pub ahead_behind : ahead p ≡ suc (k + ahead (behind p))

moves :
    {w r k : ℕ} {p : Parent}
    → waits (behind p) ≡ w + waits p
    → reads (behind p) ≡ r + reads p
    → ((d : Who) → future (behind p) d ≡ true → future p d ≡ true)
    → ahead p ≡ suc (k + ahead (behind p))
    → Moves w r k p
moves wait read unborn steps = record {
  waits_behind = wait;
  reads_behind = read;
  future_behind = unborn;
  ahead_behind = steps;
}

pub IsFork-Moves : {p : Parent} {c : Who} → IsFork p c → Moves 0 0 5 p
IsFork-Moves fork1 = moves refl refl (λ d h. refl) refl
IsFork-Moves fork2 = moves refl refl (λ d h. absurd (cc h)) refl

pub IsWait-Moves : {p : Parent} → IsWait p → Moves 1 0 0 p
IsWait-Moves wait1 = moves refl refl (λ d h. absurd (cc h)) refl
IsWait-Moves wait2 = moves refl refl (λ d h. absurd (cc h)) refl

pub IsRead-Moves : {p : Parent} → IsRead p → Moves 0 1 0 p
IsRead-Moves read1 = moves refl refl (λ d h. absurd (cc h)) refl
IsRead-Moves read2 = moves refl refl (λ d h. absurd (cc h)) refl

pub IsPrint-Moves : {p : Parent} → IsPrint p → Moves 0 0 0 p
IsPrint-Moves print1 = moves refl refl (λ d h. absurd (cc h)) refl
IsPrint-Moves print2 = moves refl refl (λ d h. absurd (cc h)) refl

second_left : (d : Who) → future forking2 d ≡ true → first ≢ d
second_left first h = absurd (cc h)
second_left second h = λ e. absurd (cc e)

pub fork-future :
    {p : Parent} {c : Who}
    → IsFork p c
    → (future p c ≡ true) × ((d : Who) → future (behind p) d ≡ true → c ≢ d)
fork-future fork1 = (refl, second_left)
fork-future fork2 = (refl, λ d h. absurd (cc h))

pub fork-waits : {p : Parent} {c : Who} → IsFork p c → waits p ≡ 0
fork-waits fork1 = refl
fork-waits fork2 = refl

pub wait-waits : {p : Parent} → IsWait p → waits p ≤ 1
wait-waits wait1 = omega arith
wait-waits wait2 = omega arith

module _ (i : Bytes) (o : List Bytes) where
  pub fork-said : {p : Parent} {c : Who} → IsFork p c → said (behind p) i o ≡ said p i o
  fork-said fork1 = refl
  fork-said fork2 = refl

  pub wait-said : {p : Parent} → IsWait p → said (behind p) i o ≡ said p i o
  wait-said wait1 = refl
  wait-said wait2 = refl

  pub read-said :
      {p : Parent}
      → IsRead p
      → (said (behind p) i o ≡ o ++ text i ∷ []) × ((j : Bytes) → said p j o ≡ o)
  read-said read1 = (refl, λ j. refl)
  read-said read2 = (refl, λ j. refl)

  pub print-said :
      {p : Parent}
      → IsPrint p
      → (said p i o ≡ o ++ text i ∷ []) × ((q : List Bytes) → said (behind p) i q ≡ q)
  print-said print1 = (refl, λ q. refl)
  print-said print2 = (refl, λ q. refl)

-- A property of both children, where one is replaced.
pub each :
    (P : Who → Child → Type 0) (c : Who) (p q1 q2 : Child)
    → P c p
    → ((d : Who) → c ≢ d → P d (pick d q1 q2))
    → (d : Who) → P d (pick d (pick c p q1) (pick c q2 p))
each P first p q1 q2 new old first = new
each P first p q1 q2 new old second = old second (λ e. absurd (cc e))
each P second p q1 q2 new old first = old first (λ e. absurd (cc e))
each P second p q1 q2 new old second = new

pub before_each :
    (P : Who → Child → Type 0) (c : Who) (p q1 q2 : Child)
    → P c (pick c q1 q2)
    → ((d : Who) → P d (pick d (pick c p q1) (pick c q2 p)))
    → (d : Who) → P d (pick d q1 q2)
before_each P first p q1 q2 mine now first = mine
before_each P first p q1 q2 mine now second = now second
before_each P second p q1 q2 mine now first = now first
before_each P second p q1 q2 mine now second = mine

pub sum_replaced :
    (f : Child → ℕ) (c : Who) (p q1 q2 : Child)
    → f (pick c p q1) + f (pick c q2 p) + f (pick c q1 q2) ≡ f q1 + f q2 + f p
sum_replaced f first p q1 q2 = omega arith
sum_replaced f second p q1 q2 = omega arith
