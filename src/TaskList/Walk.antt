-- ===== src/TaskList/Walk.antt =====
-- exp1/exp1_8.c: what every run of the module keeps: what has been printed, and what is still before it
-- in the list.
use grade15_1linux.Common.{
  along, ℕ, ◌+◌, ◌*◌, ◌≡◌, ◌≢◌, ◌⊎◌, ◌∙◌, refl, ap, sym, arith, ◌==◌, leb, ==_iff, Bool-cases,
  Option, some, List, [], ◌∷◌, ◌++◌, map, length, length-append, append_assoc, inl, inr,
}
use grade15_1linux.TaskList.{
  Task, Node, started, process, completed, Point, entering, stepping, testing, visiting, unlocking,
  returned, Walker, int_max, advance,
}
use grade15_1linux.TaskList.Ring.{Chain, Chain-done, stop, link, Behind}

module _ {F K : Type 0} (spin_lock_irqsave : K → F × K) (spin_unlock_irqrestore : F → K → K)
    (head : ℕ) (k : K) where
  -- The module between the lock and the unlock, when it has printed these tasks.
  pub record Inside (w : Walker F K) (printed : List Task) : Type 0 where
    pub lines : w.output ≡ started ∷ map process printed
    pub counted : w.count ≡ length printed
    pub saved : w.flags ≡ some (spin_lock_irqsave k).0
    pub locked : w.kernel ≡ (spin_lock_irqsave k).1

  -- The module after `n` steps, with the tasks printed, those before it, and those that it misses.
  abbrev pub At :
      Point → (ℕ → Option Node) → Walker F K → List Task → List Task → List Task → ℕ → Type 0
  At entering t w printed rest missed n =
      ((d : Task) × Behind t head head d rest)
      × (missed ≡ [])
      × (printed ≡ [])
      × (w.output ≡ [])
      × (w.kernel ≡ k)
      × (n ≡ 0)
  At (stepping p) t w printed rest missed n =
      ((d : Task) × Behind t head p d rest)
      × (missed ≡ [])
      × Inside w printed
      × (n ≡ 3 * length printed + 1)
  At (testing p) t w printed rest missed n =
      Chain t head p rest
      × (p ≡ head ⊎ missed ≡ [])
      × Inside w printed
      × (n ≡ 3 * length printed + 2)
  At (visiting p) t w printed rest missed n =
      Chain t head p rest
      × (p ≢ head)
      × (missed ≡ [])
      × Inside w printed
      × (n ≡ 3 * length printed + 3)
  At unlocking t w printed rest missed n =
      (rest ≡ []) × Inside w printed × (n ≡ 3 * length printed + 3)
  At returned t w printed rest missed n =
      (rest ≡ [])
      × (w.output ≡ started ∷ map process printed ++ completed (length printed) ∷ [])
      × (w.kernel ≡ k)
      × (n ≡ 3 * length printed + 4)

  -- A step of the module, on the list as it is.
  pub record Advanced (t : ℕ → Option Node) (missed all : List Task) (n : ℕ) (w : Walker F K)
      : Type 0 where
    pub printed : List Task
    pub rest : List Task
    pub whole : printed ++ rest ≡ all
    pub at : At w.point t w printed rest missed n

  moved :
      {w : Walker F K} {p : Point} {ds : List Task}
      → Inside w ds
      → Inside (record w { point = p }) ds
  moved i = record { lines = i.lines; counted = i.counted; saved = i.saved; locked = i.locked }

  map_snoc :
      (ds : List Task) (d : Task) → map process (ds ++ d ∷ []) ≡ map process ds ++ process d ∷ []
  map_snoc [] d = refl
  map_snoc (e ∷ ds) d = ap (λ ls. process e ∷ ls) (map_snoc ds d)

  module _
      (restores : (j : K)
        → spin_unlock_irqrestore (spin_lock_irqsave j).0 (spin_lock_irqsave j).1 ≡ j) where
    pub advance-At :
        (pt : Point) (t : ℕ → Option Node) (w w' : Walker F K) (printed rest missed : List Task)
        (n : ℕ)
        → At pt t w printed rest missed n
        → advance spin_lock_irqsave spin_unlock_irqrestore head pt t w ≡ some w'
        → Advanced t missed (printed ++ rest) (n + 1) w'
    unfolding advance
    advance-At entering t w w' printed rest missed n (b, all, fresh, quiet, free, e) s =
        along (Advanced t missed (printed ++ rest) (n + 1)) s (record {
          printed = printed;
          rest = rest;
          whole = refl;
          at = (
            b,
            all,
            record {
              lines =
                  ap (λ ls. ls ++ started ∷ []) quiet
                  ∙ sym (ap (λ ds. started ∷ map process ds) fresh);
              counted = sym (ap length fresh);
              saved = ap (λ j. some (spin_lock_irqsave j).0) free;
              locked = ap (λ j. (spin_lock_irqsave j).1) free;
            },
            omega (arith, e, ap length fresh),
          );
        })
    advance-At (stepping p) t w w' printed rest missed n ((d, b), all, i, e) s =
        let s' = rw (b.here, advance) at s in
        along (Advanced t missed (printed ++ rest) (n + 1)) s' (record {
          printed = printed;
          rest = rest;
          whole = refl;
          at = (b.rest, inr all, moved i, omega (arith, e));
        })
    advance-At (testing p) t w w' printed rest missed n (c, late, i, e) s =
        elim (Bool-cases (p == head)) [
          | inl same ↦
              let s' = rw (same, advance) at s in
              along (Advanced t missed (printed ++ rest) (n + 1)) s' (record {
                printed = printed;
                rest = rest;
                whole = refl;
                at = (Chain-done p rest ((==_iff p head).0 same) c, moved i, omega (arith, e));
              })
          | inr other ↦
              let s' = rw (other, advance) at s in
              let away : p ≢ head = λ same. absurd (cc ((==_iff p head).1 same)) in
              along (Advanced t missed (printed ++ rest) (n + 1)) s' (record {
                printed = printed;
                rest = rest;
                whole = refl;
                at = (
                  c,
                  away,
                  elim late [ inl same ↦ absurd (away same) | inr all ↦ all ],
                  moved i,
                  omega (arith, e),
                );
              })
        ]
    advance-At (visiting p) t w w' printed [] missed n (stop, away, all, i, e) s =
        absurd (away refl)
    advance-At (visiting p) t w w' printed (d ∷ rest) missed n
          (link {n = q} apart here c, away, all, i, e) s =
        elim (Bool-cases (leb int_max w.count)) [
          | inl over ↦ let s' = rw (here, over, advance) at s in absurd (cc)
          | inr fits ↦
              let s' = rw (here, fits, advance) at s in
              along (Advanced t missed (printed ++ d ∷ rest) (n + 1)) s' (record {
                printed = printed ++ d ∷ [];
                rest = rest;
                whole = append_assoc printed (d ∷ []) rest;
                at = (
                  (d, record { next_of = q; here = here; rest = c }),
                  all,
                  record {
                    lines =
                        ap (λ ls. ls ++ process d ∷ []) i.lines
                        ∙ ap (λ ls. started ∷ ls) (sym (map_snoc printed d));
                    counted = omega (arith, i.counted, length-append printed (d ∷ []));
                    saved = i.saved;
                    locked = i.locked;
                  },
                  omega (arith, e, length-append printed (d ∷ [])),
                );
              })
        ]
    advance-At unlocking t w w' printed rest missed n (past, i, e) s =
        let s' = rw (i.saved, advance) at s in
        along (Advanced t missed (printed ++ rest) (n + 1)) s' (record {
          printed = printed;
          rest = rest;
          whole = refl;
          at = (
            past,
            ap (λ ls. ls ++ completed w.count ∷ []) i.lines
                ∙ ap (λ m. started ∷ map process printed ++ completed m ∷ []) i.counted,
            ap (spin_unlock_irqrestore (spin_lock_irqsave k).0) i.locked ∙ restores k,
            omega (arith, e),
          );
        })
    advance-At returned t w w' printed rest missed n at s = absurd (cc)
