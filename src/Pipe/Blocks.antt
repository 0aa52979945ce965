-- ===== src/Pipe/Blocks.antt =====
-- exp1/exp1.5.c: whole messages in the pipe, and the steps of a child.
use grade15_1linux.Common.{
  along, suc, ◌+◌, ◌≡◌, ◌≢◌, ◌∙◌, refl, ap, sym, arith, Option, none, some, List, [], ◌∷◌, ◌++◌,
  Bytes, length, take, drop, text, strlen, append-nil, append_assoc, length-take, length-drop,
}
use grade15_1linux.Pipe.{
  Who, first, second, Child, absent, locking, formatting, unlocking, exiting, ended, reaped,
  writing, message, count, sprintf, unlock, advance,
}
use grade15_1linux.Pipe.Order.{
  holds, wrote, gone, rank, held_by, tally, tally_one, tally_other, held_by_self, held_by_other,
  held_by-none, lock_of, unlock_own,
}

module _ (outpipe : Bytes) where
  -- What the write of a child sends.
  abbrev pub block : Who → Bytes
  block c = take count (sprintf c outpipe)

  abbrev pub blocks : List Who → Bytes
  blocks [] = []
  blocks (c ∷ order) = block c ++ blocks order

  pub blocks-append : (xs ys : List Who) → blocks (xs ++ ys) ≡ blocks xs ++ blocks ys
  blocks-append [] ys = refl
  blocks-append (c ∷ xs) ys =
      ap (λ bs. block c ++ bs) (blocks-append xs ys)
      ∙ sym (append_assoc (block c) (blocks xs) (blocks ys))

  abbrev behind_text : Bytes
  behind_text = take 14 (drop 36 outpipe)

  block_text : (c : Who) → block c ≡ message c ++ 0 ∷ behind_text
  block_text c = refl

  module _ (size : length outpipe ≡ 100) where
    pub length-block : (c : Who) → length (block c) ≡ count
    length-block c = omega (arith, length-take 14 (drop 36 outpipe), length-drop 36 outpipe)

  -- A block at the start of the parent's array is printed as its message.
  pub text-block : (c : Who) (rest : Bytes) → text (block c ++ rest) ≡ message c
  unfolding strlen
  text-block first rest = refl
  text-block second rest = refl

  -- What a child has in `outpipe` when it writes.
  abbrev pub Formed : Who → Child → Type 0
  Formed c (writing buffer) = buffer ≡ sprintf c outpipe
  Formed c _ = Unit {0}

  -- What a step of a child leaves: who has written by it, if one has, and the lock.
  pub record Advanced (c : Who) (p : Child) (lock : Option Who) (pipe : Bytes)
      (t : Child × Option Who × Bytes) : Type 0 where
    pub sent : List Who
    pub pipe_after : t.2 ≡ pipe ++ blocks sent
    pub mine : wrote t.0 ≡ wrote p + tally c sent
    pub others : (d : Who) → c ≢ d → tally d sent ≡ 0
    pub my_lock : held_by c t.1 ≡ holds t.0
    pub other_locks : (d : Who) → c ≢ d → held_by d t.1 ≡ held_by d lock
    pub formed : Formed c t.0
    pub gone_not : (gone p ≡ 0) × (gone t.0 ≡ 0)
    pub there : p ≢ absent
    pub ranks : rank p ≡ suc (rank t.0)

  pub advance-Advanced :
      (c : Who) (p : Child) (lock : Option Who) (pipe : Bytes) (t : Child × Option Who × Bytes)
      → advance c outpipe p lock pipe ≡ some t
      → held_by c lock ≡ holds p
      → Formed c p
      → Advanced c p lock pipe t
  unfolding advance
  advance-Advanced c locking none pipe t e mine formed =
      along (Advanced c locking none pipe) e (record {
        sent = [];
        pipe_after = sym (append-nil pipe);
        mine = refl;
        others = λ d ne. refl;
        my_lock = held_by_self c;
        other_locks = λ d ne. held_by_other c d ne ∙ sym (held_by-none d);
        formed = tt;
        gone_not = (refl, refl);
        there = λ z. absurd (cc z);
        ranks = refl;
      })
  advance-Advanced c locking (some d) pipe t e mine formed = absurd (cc)
  advance-Advanced c formatting lock pipe t e mine formed =
      along (Advanced c formatting lock pipe) e (record {
        sent = [];
        pipe_after = sym (append-nil pipe);
        mine = refl;
        others = λ d ne. refl;
        my_lock = mine;
        other_locks = λ d ne. refl;
        formed = refl;
        gone_not = (refl, refl);
        there = λ z. absurd (cc z);
        ranks = refl;
      })
  advance-Advanced c (writing buffer) lock pipe t e mine formed =
      along (Advanced c (writing buffer) lock pipe) e (record {
        sent = c ∷ [];
        pipe_after =
            ap (λ b. pipe ++ take count b) formed
            ∙ ap (λ b. pipe ++ b) (sym (append-nil (block c)));
        mine = omega (arith, tally_one c);
        others = λ d ne. tally_other c d ne;
        my_lock = mine;
        other_locks = λ d ne. refl;
        formed = tt;
        gone_not = (refl, refl);
        there = λ z. absurd (cc z);
        ranks = refl;
      })
  advance-Advanced c unlocking lock pipe t e mine formed =
      let own = lock_of c lock mine in
      along (Advanced c unlocking lock pipe) e (record {
        sent = [];
        pipe_after = sym (append-nil pipe);
        mine = refl;
        others = λ d ne. refl;
        my_lock =
            ap (λ l. held_by c (unlock c l)) own ∙ ap (held_by c) (unlock_own c) ∙ held_by-none c;
        other_locks = λ d ne.
            ap (λ l. held_by d (unlock c l)) own
            ∙ ap (held_by d) (unlock_own c)
            ∙ held_by-none d
            ∙ sym (held_by_other c d ne)
            ∙ ap (held_by d) (sym own);
        formed = tt;
        gone_not = (refl, refl);
        there = λ z. absurd (cc z);
        ranks = refl;
      })
  advance-Advanced c exiting lock pipe t e mine formed =
      along (Advanced c exiting lock pipe) e (record {
        sent = [];
        pipe_after = sym (append-nil pipe);
        mine = refl;
        others = λ d ne. refl;
        my_lock = mine;
        other_locks = λ d ne. refl;
        formed = tt;
        gone_not = (refl, refl);
        there = λ z. absurd (cc z);
        ranks = refl;
      })
  advance-Advanced c absent lock pipe t e mine formed = absurd (cc)
  advance-Advanced c ended lock pipe t e mine formed = absurd (cc)
  advance-Advanced c reaped lock pipe t e mine formed = absurd (cc)
