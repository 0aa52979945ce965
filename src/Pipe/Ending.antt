-- ===== src/Pipe/Ending.antt =====
-- exp1/exp1.5.c: how the interleavings of the processes end.
use grade15_1linux.Common.{
  ℕ, ◌+◌, ◌≤◌, ◌≡◌, ◌≢◌, ◌⊎◌, inl, inr, ◌∙◌, refl, ap, sym, arith, true, none, List, [], ◌∷◌, Bytes,
  length, take, map,
}
use grade15_1linux.Pipe.{
  Who, first, second, Child, absent, locking, formatting, unlocking, exiting, ended, reaped,
  writing, finished, message, System, start_state, pick, child, Run, start, next,
}
use grade15_1linux.Pipe.Order.{holds, wrote, held_by, tally, length-tally}
use grade15_1linux.Pipe.Blocks.{Formed}
use grade15_1linux.Pipe.Points.{reads, said}
use grade15_1linux.Pipe.Kept.{Inv, left}
use grade15_1linux.Pipe.Steps.{Step-Next}

wrote_le : (p : Child) → wrote p ≤ 1
wrote_le absent = omega arith
wrote_le locking = omega arith
wrote_le formatting = omega arith
wrote_le (writing _) = omega arith
wrote_le unlocking = omega arith
wrote_le exiting = omega arith
wrote_le ended = omega arith
wrote_le reaped = omega arith

every : (P : Who → Type 0) → P first → P second → (c : Who) → P c
every P p q first = p
every P p q second = q

-- Two different writers, in one order or the other.
abbrev Both : List Who → Type 0
Both order = (order ≡ first ∷ second ∷ []) ⊎ (order ≡ second ∷ first ∷ [])

both :
    (order : List Who)
    → 2 ≤ length order
    → tally first order ≤ 1
    → tally second order ≤ 1
    → Both order
both [] two f s = absurd (omega arith)
both (_ ∷ []) two f s = absurd (omega arith)
both (first ∷ first ∷ order) two f s = absurd (omega arith)
both (second ∷ second ∷ order) two f s = absurd (omega arith)
both (first ∷ second ∷ []) two f s = inl refl
both (second ∷ first ∷ []) two f s = inr refl
both (first ∷ second ∷ first ∷ order) two f s = absurd (omega arith)
both (first ∷ second ∷ second ∷ order) two f s = absurd (omega arith)
both (second ∷ first ∷ first ∷ order) two f s = absurd (omega arith)
both (second ∷ first ∷ second ∷ order) two f s = absurd (omega arith)

-- Without one of the writers, the others are all of them.
tallies_le :
    (c : Who) (order : List Who)
    → tally c order ≡ 0
    → (length order ≡ tally first order) ⊎ (length order ≡ tally second order)
tallies_le first order e = inr (omega (arith, length-tally order))
tallies_le second order e = inl (omega (arith, length-tally order))

module _ (outpipe inpipe : Bytes) (size : length outpipe ≡ 100) where
  start-Inv : Inv outpipe size (start_state inpipe)
  start-Inv = record {
    order = [];
    tallies = every (λ c. 0 ≡ wrote (pick c absent absent)) refl refl;
    locks = every (λ c. held_by c none ≡ holds (pick c absent absent)) refl refl;
    formed = every (λ c. Formed outpipe c (pick c absent absent)) tt tt;
    unborn = every (λ c. true ≡ true → pick c absent absent ≡ absent) (λ h. refl) (λ h. refl);
    enough = omega arith;
    in_pipe = refl;
    heard = refl;
    waited_le = omega arith;
    waited = λ there. refl;
  }

  pub Run-Inv :
      {n : ℕ} {s : System}
      → Run outpipe inpipe n s
      → Inv outpipe size s × (n + left outpipe size s ≤ 18)
  Run-Inv start = (start-Inv, omega arith)
  Run-Inv (next {s = r} {t = s} run step) =
      let (inv, few) = Run-Inv run in
      let after = Step-Next outpipe size r s inv step in (after.inv, omega (arith, few, after.less))

  -- No interleaving goes on for ever: it has at most 18 steps.
  pub Run_terminates : (n : ℕ) (s : System) → Run outpipe inpipe n s → n ≤ 18
  Run_terminates n s run = omega (arith, (Run-Inv run).1)

  -- In whatever order the processes ran, a parent that has finished has printed the two messages, each of
  -- them whole and once.
  pub Run_delivers :
      (n : ℕ) (s : System)
      → Run outpipe inpipe n s
      → s.parent ≡ finished
      → (s.printed ≡ message first ∷ message second ∷ [])
        ⊎ (s.printed ≡ message second ∷ message first ∷ [])
  Run_delivers n s run done =
      let inv = (Run-Inv run).0 in
      let two : reads s.parent ≡ 2 = ap reads done in
      let all =
        both inv.order (omega (arith, inv.enough, two))
          (omega (arith, inv.tallies first, wrote_le s.child1))
          (omega (arith, inv.tallies second, wrote_le s.child2)) in
      let lines : s.printed ≡ map message (take 2 inv.order) =
        sym (ap (λ p. said p s.inpipe s.printed) done)
        ∙ inv.heard
        ∙ ap (λ r. map message (take r inv.order)) two in
      elim all [
        | inl e ↦ inl (lines ∙ ap (λ o. map message (take 2 o)) e)
        | inr e ↦ inr (lines ∙ ap (λ o. map message (take 2 o)) e)
      ]

  -- In a state in which one of the children is not there, as in every one after a fork that failed, the
  -- parent has not finished.
  pub Run_unfinished :
      (n : ℕ) (s : System) (c : Who)
      → Run outpipe inpipe n s
      → child c s ≡ absent
      → s.parent ≢ finished
  Run_unfinished n s c run missing done =
      let inv = (Run-Inv run).0 in
      let two : reads s.parent ≡ 2 = ap reads done in
      let none_of : tally c inv.order ≡ 0 = inv.tallies c ∙ ap wrote missing in
      let few = tallies_le c inv.order none_of in
      absurd (
        omega (
          arith,
          two,
          inv.enough,
          few,
          inv.tallies first,
          inv.tallies second,
          wrote_le s.child1,
          wrote_le s.child2,
        ))
