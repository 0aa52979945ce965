-- ===== src/Pipe/Order.antt =====
-- exp1/exp1.5.c: what a child has done and holds, and who has written.
use grade15_1linux.Common.{
  ℕ, suc, ◌+◌, ◌≡◌, ◌≢◌, ◌∙◌, refl, ap, arith, Bool, true, false, Option, none, some, List, [], ◌∷◌,
  ◌++◌, length,
}
use grade15_1linux.Pipe.{
  Who, first, second, Child, locking, formatting, unlocking, exiting, ended, reaped, writing,
  unlock,
}

-- Whether a child holds the lock, and how often it has written.
abbrev pub holds : Child → Bool
holds formatting = true
holds (writing _) = true
holds unlocking = true
holds _ = false

abbrev pub wrote : Child → ℕ
wrote unlocking = 1
wrote exiting = 1
wrote ended = 1
wrote reaped = 1
wrote _ = 0

-- Whether the parent has waited for a child, and the steps that a child still takes.
abbrev pub gone : Child → ℕ
gone reaped = 1
gone _ = 0

abbrev pub rank : Child → ℕ
rank locking = 5
rank formatting = 4
rank (writing _) = 3
rank unlocking = 2
rank exiting = 1
rank _ = 0

abbrev pub held_by : Who → Option Who → Bool
held_by first (some first) = true
held_by second (some second) = true
held_by _ _ = false

abbrev pub tally : Who → List Who → ℕ
tally c [] = 0
tally first (first ∷ order) = suc (tally first order)
tally second (second ∷ order) = suc (tally second order)
tally c (_ ∷ order) = tally c order

pub tally-append : (c : Who) (xs ys : List Who) → tally c (xs ++ ys) ≡ tally c xs + tally c ys
tally-append c [] ys = omega arith
tally-append first (first ∷ xs) ys = ap suc (tally-append first xs ys) ∙ omega arith
tally-append first (second ∷ xs) ys = tally-append first xs ys
tally-append second (first ∷ xs) ys = tally-append second xs ys
tally-append second (second ∷ xs) ys = ap suc (tally-append second xs ys) ∙ omega arith

pub length-tally : (order : List Who) → length order ≡ tally first order + tally second order
length-tally [] = refl
length-tally (first ∷ order) = omega (arith, length-tally order)
length-tally (second ∷ order) = omega (arith, length-tally order)

pub tally_one : (c : Who) → tally c (c ∷ []) ≡ 1
tally_one first = refl
tally_one second = refl

pub tally_other : (c d : Who) → c ≢ d → tally d (c ∷ []) ≡ 0
tally_other first first ne = absurd (ne refl)
tally_other first second ne = refl
tally_other second first ne = refl
tally_other second second ne = absurd (ne refl)

pub held_by_self : (c : Who) → held_by c (some c) ≡ true
held_by_self first = refl
held_by_self second = refl

pub held_by_other : (c d : Who) → c ≢ d → held_by d (some c) ≡ false
held_by_other first first ne = absurd (ne refl)
held_by_other first second ne = refl
held_by_other second first ne = refl
held_by_other second second ne = absurd (ne refl)

pub held_by-none : (c : Who) → held_by c none ≡ false
held_by-none first = refl
held_by-none second = refl

pub lock_of : (c : Who) (lock : Option Who) → held_by c lock ≡ true → lock ≡ some c
lock_of first none h = absurd (cc h)
lock_of second none h = absurd (cc h)
lock_of first (some first) h = refl
lock_of first (some second) h = absurd (cc h)
lock_of second (some first) h = absurd (cc h)
lock_of second (some second) h = refl

pub unlock_own : (c : Who) → unlock c (some c) ≡ none
unlock_own first = refl
unlock_own second = refl
