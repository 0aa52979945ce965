-- ===== src/TaskList/Forks.antt =====
-- exp1/exp1_8.c: a new task at the end of the list, and what every run of the module and of the kernel
-- keeps.
use grade15_1linux.Common.{
  ℕ, ◌+◌, ◌≡◌, ◌≢◌, ◌⊎◌, ◌∙◌, refl, ap, sym, subst, ◌*◌, length, ◌==◌, ==_iff, Bool-cases, Option,
  none, some, List, [], ◌∷◌, ◌++◌, append_assoc, append-nil, inl, inr,
}
use grade15_1linux.TaskList.{
  Task, Node, Point, entering, stepping, testing, visiting, unlocking, returned, Walker, System,
  add_tail,
}
use grade15_1linux.TaskList.Ring.{
  node, Chain, Chain-done, stop, Behind, HasOneLast, grown, Behind-grown, Chain-grown,
  HasOneLast-grown, grown_used,
}
use grade15_1linux.TaskList.Walk.{At, Inside}

module _ {F K : Type 0} (spin_lock_irqsave : K → F × K) (spin_unlock_irqrestore : F → K → K)
    (head : ℕ) (k : K) where
  -- A new task is before the module, or missed by it.
  record Forked (t : ℕ → Option Node) (pt : Point) (w : Walker F K)
      (printed rest missed : List Task) (new : Task) (n : ℕ) : Type 0 where
    rest_after : List Task
    missed_after : List Task
    split :
        ((rest_after ≡ rest ++ new ∷ []) × (missed ≡ []) × (missed_after ≡ []))
        ⊎ ((rest_after ≡ rest) × (missed_after ≡ missed ++ new ∷ []))
    at : At spin_lock_irqsave spin_unlock_irqrestore head k pt t w printed rest_after missed_after n

  module _ (t : ℕ → Option Node) (q a : ℕ) (last new : Task) (one_last : HasOneLast t head)
      (at_q : t q ≡ some (node last head)) (free : t a ≡ none) (apart : head ≢ a) where
    behind :
        (p : ℕ) (rest : List Task)
        → (d : Task) × Behind t head p d rest
        → (d : Task) × Behind
            (grown t head q a last new one_last at_q free)
            head
            p
            d
            (rest ++ new ∷ [])
    behind p rest (d, b) = (
      d,
      Behind-grown t head q a last new one_last at_q free p b.next_of d rest apart b.here b.rest,
    )

    passed :
        (p : ℕ) (w : Walker F K) (printed rest missed : List Task) (n : ℕ)
        → p ≡ head
        → Chain t head p rest
        → Inside spin_lock_irqsave spin_unlock_irqrestore head k w printed
        → n ≡ 3 * length printed + 2
        → Forked
            (grown t head q a last new one_last at_q free)
            (testing p)
            w
            printed
            rest
            missed
            new
            n
    passed p w printed rest missed n same c i e = record {
      rest_after = [];
      missed_after = missed ++ new ∷ [];
      split = inr (sym (Chain-done p rest same c), refl);
      at = (
        subst (λ x. Chain (grown t head q a last new one_last at_q free) head x []) (sym same) stop,
        inl same,
        i,
        e,
      );
    }

    fork-At :
        (pt : Point) (w : Walker F K) (printed rest missed : List Task) (n : ℕ)
        → At spin_lock_irqsave spin_unlock_irqrestore head k pt t w printed rest missed n
        → Forked (grown t head q a last new one_last at_q free) pt w printed rest missed new n
    fork-At entering w printed rest missed n (b, all, none_yet, quiet, unlocked, e) = record {
      rest_after = rest ++ new ∷ [];
      missed_after = [];
      split = inl (refl, all, refl);
      at = (behind head rest b, refl, none_yet, quiet, unlocked, e);
    }
    fork-At (stepping p) w printed rest missed n (b, all, i, e) = record {
      rest_after = rest ++ new ∷ [];
      missed_after = [];
      split = inl (refl, all, refl);
      at = (behind p rest b, refl, i, e);
    }
    fork-At (testing p) w printed rest missed n (c, late, i, e) = elim late [
      | inl same ↦ passed p w printed rest missed n same c i e
      | inr all ↦ elim (Bool-cases (p == head)) [
        | inl same ↦ passed p w printed rest missed n ((==_iff p head).0 same) c i e
        | inr other ↦ record {
          rest_after = rest ++ new ∷ [];
          missed_after = [];
          split = inl (refl, all, refl);
          at = (
            Chain-grown t head q a last new one_last at_q free p rest apart
                (λ same. absurd (cc ((==_iff p head).1 same))) c,
            inr refl,
            i,
            e,
          );
        }
      ]
    ]
    fork-At (visiting p) w printed rest missed n (c, away, all, i, e) = record {
      rest_after = rest ++ new ∷ [];
      missed_after = [];
      split = inl (refl, all, refl);
      at = (
        Chain-grown t head q a last new one_last at_q free p rest apart away c,
        away,
        refl,
        i,
        e,
      );
    }
    fork-At unlocking w printed rest missed n facts = record {
      rest_after = rest;
      missed_after = missed ++ new ∷ [];
      split = inr (refl, refl);
      at = facts;
    }
    fork-At returned w printed rest missed n facts = record {
      rest_after = rest;
      missed_after = missed ++ new ∷ [];
      split = inr (refl, refl);
      at = facts;
    }

  -- What every run keeps.
  pub record Inv (ts fs : List Task) (n : ℕ) (s : System F K) : Type 0 where
    pub printed : List Task
    pub rest : List Task
    pub seen : List Task
    pub missed : List Task
    pub whole : printed ++ rest ≡ ts ++ seen
    pub forks : fs ≡ seen ++ missed
    pub rooted : s.nodes head ≢ none
    pub one_last : HasOneLast s.nodes head
    pub at :
        At spin_lock_irqsave spin_unlock_irqrestore head k s.walker.point s.nodes s.walker printed
          rest missed n

  append_snoc :
      (xs ys zs ws : List Task) (d : Task)
      → xs ++ ys ≡ zs ++ ws
      → xs ++ (ys ++ d ∷ []) ≡ zs ++ (ws ++ d ∷ [])
  append_snoc xs ys zs ws d e =
      sym (append_assoc xs ys (d ∷ [])) ∙ ap (λ ds. ds ++ d ∷ []) e ∙ append_assoc zs ws (d ∷ [])

  -- The task is forked before the module has passed the end of the list, or behind it.
  pub fork-Inv :
      (ts fs : List Task) (n q a : ℕ) (last new : Task) (s : System F K)
      → s.nodes q ≡ some (node last head)
      → s.nodes a ≡ none
      → Inv ts fs n s
      → Inv ts
          (fs ++ new ∷ [])
          n
          (record { nodes = add_tail head q last a new s.nodes; walker = s.walker })
  unfolding grown
  fork-Inv ts fs n q a last new s at_q free i =
      let apart : head ≢ a = λ same. i.rooted (ap s.nodes same ∙ free) in
      let f =
        fork-At s.nodes q a last new i.one_last at_q free apart s.walker.point s.walker i.printed
          i.rest i.missed n i.at in
      let one_last = HasOneLast-grown s.nodes head q a last new i.one_last at_q free apart in
      let rooted = grown_used s.nodes head q a last new i.one_last at_q free head i.rooted in
      elim f.split [
        | inl (longer, all, still) ↦ record {
          printed = i.printed;
          rest = f.rest_after;
          seen = i.seen ++ new ∷ [];
          missed = f.missed_after;
          whole =
              ap (λ ds. i.printed ++ ds) longer
              ∙ append_snoc i.printed i.rest ts i.seen new i.whole;
          forks =
              ap (λ ds. ds ++ new ∷ []) (i.forks ∙ ap (λ ds. i.seen ++ ds) all ∙ append-nil i.seen)
              ∙ sym (append-nil (i.seen ++ new ∷ []))
              ∙ ap (λ ds. (i.seen ++ new ∷ []) ++ ds) (sym still);
          rooted = rooted;
          one_last = one_last;
          at = f.at;
        }
        | inr (same, more) ↦ record {
          printed = i.printed;
          rest = f.rest_after;
          seen = i.seen;
          missed = f.missed_after;
          whole = ap (λ ds. i.printed ++ ds) same ∙ i.whole;
          forks =
              ap (λ ds. ds ++ new ∷ []) i.forks
              ∙ append_assoc i.seen i.missed (new ∷ [])
              ∙ ap (λ ds. i.seen ++ ds) (sym more);
          rooted = rooted;
          one_last = one_last;
          at = f.at;
        }
      ]
