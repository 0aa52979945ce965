-- ===== src/TaskList/Leaving/Chains.antt =====
-- exp1/exp1_8.c: what is before the module in the list when a task has come or gone. The tasks that stay
-- are the same, in the same order.
use grade15_1linux.Common.{
  ℕ, ◌+◌, ◌≤◌, ◌≡◌, ◌≢◌, ◌∙◌, refl, ap, sym, subst, arith, Bool, false, Bool-cases, if◌then◌else◌,
  ◌==◌, ==_iff, Option, none, some, List, [], ◌∷◌, ◌++◌, length, inl, inr,
}
use grade15_1linux.TaskList.{Task, Node, place, add_tail}
use grade15_1linux.TaskList.Ring.{
  node, Chain, Chain-done, stop, link, Behind, place_same, place_other,
}
use grade15_1linux.TaskList.Leaving.{pass_over}

-- The tasks of a list that stay.
abbrev pub staying : (Task → Bool) → List Task → List Task
staying stays [] = []
staying stays (d ∷ ds) = if stays d then d ∷ staying stays ds else staying stays ds

module _ (stays : Task → Bool) where
  staying_more :
      (d : Task) (ds es : List Task)
      → staying stays ds ≡ staying stays es
      → staying stays (d ∷ ds) ≡ staying stays (d ∷ es)
  staying_more d ds es e = ap (λ xs. if stays d then d ∷ xs else xs) e

  pub staying-append :
      (ds es fs : List Task)
      → staying stays es ≡ staying stays fs
      → staying stays (ds ++ es) ≡ staying stays (ds ++ fs)
  staying-append [] es fs e = e
  staying-append (d ∷ ds) es fs e = staying_more d (ds ++ es) (ds ++ fs) (staying-append ds es fs e)

  staying_skip :
      (d : Task) (ds : List Task) → stays d ≡ false → staying stays (d ∷ ds) ≡ staying stays ds
  staying_skip d ds gone = rw gone refl

  -- What is before the module after a change, where at most `extra` tasks have been added.
  pub record Changed (extra : ℕ) (ds es : List Task) : Type 0 where
    pub same : staying stays es ≡ staying stays ds
    pub few : length es ≤ length ds + extra

  pub Changed-refl : (extra : ℕ) (ds : List Task) → Changed extra ds ds
  Changed-refl extra ds = record { same = refl; few = omega arith }

  Changed-more :
      {extra : ℕ} {ds es : List Task} (d : Task)
      → Changed extra ds es
      → Changed extra (d ∷ ds) (d ∷ es)
  Changed-more {extra} {ds} {es} d c = record {
    same = staying_more d es ds c.same;
    few = omega (arith, c.few);
  }

  module _ (t t' : ℕ → Option Node) (head extra : ℕ) where
    -- The change of one node, and of what is behind it, when what is further behind is known.
    abbrev pub NodeChanges : Type 0
    NodeChanges =
        (p n : ℕ) (d : Task) (ds es : List Task)
        → t p ≡ some (node d n)
        → Chain t head n ds
        → Chain t' head n es
        → Changed extra ds es
        → (fs : List Task) × Behind t' head p d fs × Changed extra ds fs

    pub Chain-Changed :
        NodeChanges
        → (p : ℕ) (ds : List Task) → Chain t head p ds
        → (es : List Task) × Chain t' head p es × Changed extra ds es
    Chain-Changed node_changes p [] stop = ([], stop, Changed-refl extra [])
    Chain-Changed node_changes p (d ∷ ds) (link {n} apart here rest) =
        let (es, rest', c) = Chain-Changed node_changes n ds rest in
        let (fs, b, c') = node_changes p n d ds es here rest rest' c in
        (d ∷ fs, link apart b.here b.rest, Changed-more d c')

    pub Behind-Changed :
        NodeChanges
        → (p : ℕ) (d : Task) (ds : List Task) → Behind t head p d ds
        → (es : List Task) × Behind t' head p d es × Changed extra ds es
    Behind-Changed node_changes p d ds b =
        let (es, rest', c) = Chain-Changed node_changes b.next_of ds b.rest in
        node_changes p b.next_of d ds es b.here b.rest rest' c

  module _ (t : ℕ → Option Node) (head q : ℕ) where
    -- The task that goes keeps its pointer.
    leaver :
        (r m : ℕ) (d e : Task)
        → t q ≡ some (node d r)
        → t r ≡ some (node e m)
        → pass_over q d m t r ≡ some (node e m)
    leaver r m d e at_q at_r = elim (Bool-cases (r == q)) [
      | inl same ↦
          let same_node : some (node d r) ≡ some (node e m) =
            sym at_q ∙ ap t (sym ((==_iff r q).0 same)) ∙ at_r in
          ap (pass_over q d m t) ((==_iff r q).0 same) ∙ place_same t q (node d m) ∙ cc
      | inr other ↦ place_other t q r (node d m) (λ s. absurd (cc ((==_iff r q).1 s))) ∙ at_r
    ]

    -- What is behind it.
    behind_leaver :
        (r m n : ℕ) (d e : Task) (es : List Task)
        → stays e ≡ false
        → r ≢ head
        → t q ≡ some (node d r)
        → t r ≡ some (node e m)
        → n ≡ r
        → Chain (pass_over q d m t) head n es
        → (fs : List Task) × Chain (pass_over q d m t) head m fs
          × (staying stays fs ≡ staying stays es)
          × (length fs ≤ length es)
    behind_leaver r m n d e [] gone apart at_q at_r same stop = absurd (apart (sym same))
    behind_leaver r m n d e (f ∷ es) gone apart at_q at_r same (link {n = k} away here rest) =
        let one_node : some (node f k) ≡ some (node e m) =
          sym here ∙ ap (pass_over q d m t) same ∙ leaver r m d e at_q at_r in
        let next : k ≡ m = cc in
        let task : f ≡ e = cc in
        (
          es,
          subst (λ x. Chain (pass_over q d m t) head x es) next rest,
          sym (staying_skip f es (ap stays task ∙ gone)),
          omega arith,
        )

    -- A task that goes.
    pub pass_over-NodeChanges :
        (r m : ℕ) (d e : Task)
        → stays e ≡ false
        → r ≢ head
        → t q ≡ some (node d r)
        → t r ≡ some (node e m)
        → NodeChanges t (pass_over q d m t) head 0
    pass_over-NodeChanges r m d e gone apart at_q at_r p n d' ds es here rest rest' c =
        elim (Bool-cases (p == q)) [
          | inl same ↦
              let one_node : some (node d' n) ≡ some (node d r) =
                sym here ∙ ap t ((==_iff p q).0 same) ∙ at_q in
              let (fs, behind, same_stay, fewer) =
                behind_leaver r m n d e es gone apart at_q at_r (cc) rest' in
              (
                fs,
                record {
                  next_of = m;
                  here =
                      ap (pass_over q d m t) ((==_iff p q).0 same) ∙ place_same t q (node d m) ∙ cc;
                  rest = behind;
                },
                record { same = same_stay ∙ c.same; few = omega (arith, fewer, c.few) },
              )
          | inr other ↦
              let ne : p ≢ q = λ s. absurd (cc ((==_iff p q).1 s)) in
              (
                es,
                record { next_of = n; here = place_other t q p (node d m) ne ∙ here; rest = rest' },
                c,
              )
        ]

    -- A task that is added.
    pub add_tail-NodeChanges :
        (a : ℕ) (last new : Task)
        → stays new ≡ false
        → head ≢ a
        → t q ≡ some (node last head)
        → t a ≡ none
        → NodeChanges t (add_tail head q last a new t) head 1
    add_tail-NodeChanges a last new gone apart at_q free p n d' ds es here rest rest' c =
        elim (Bool-cases (p == q)) [
          | inl same ↦
              let one_node : some (node d' n) ≡ some (node last head) =
                sym here ∙ ap t ((==_iff p q).0 same) ∙ at_q in
              let nothing : es ≡ [] = Chain-done n es (cc) rest' in
              let not_new : q ≢ a = λ s. absurd (cc (ap t s)) in
              (
                new ∷ [],
                record {
                  next_of = a;
                  here =
                      ap (add_tail head q last a new t) ((==_iff p q).0 same)
                      ∙ place_other (place t q (node last a)) a q (node new head) not_new
                      ∙ place_same t q (node last a)
                      ∙ cc;
                  rest =
                      link (λ s. apart (sym s))
                        (place_same (place t q (node last a)) a (node new head)) stop;
                },
                record {
                  same = staying_skip new [] gone ∙ ap (staying stays) (sym nothing) ∙ c.same;
                  few = omega arith;
                },
              )
          | inr other ↦
              let not_q : p ≢ q = λ s. absurd (cc ((==_iff p q).1 s)) in
              let not_new : p ≢ a = λ s. absurd (cc (ap t s)) in
              (
                es,
                record {
                  next_of = n;
                  here =
                      place_other (place t q (node last a)) a p (node new head) not_new
                      ∙ place_other t q p (node last a) not_q
                      ∙ here;
                  rest = rest';
                },
                c,
              )
        ]
