-- ===== src/Pipe/Steps.antt =====
-- exp1/exp1.5.c: the reads and the prints of the parent, and with them every step, keep the invariant.
use grade15_1linux.Common.{
  ℕ, zero, suc, ◌+◌, ◌≤◌, ◌≡◌, ◌≢◌, ◌∙◌, refl, ap, ap₂, sym, arith, List, [], ◌∷◌, ◌++◌, Bytes,
  length, take, drop, text, splice, map, take-append, drop-append,
}
use grade15_1linux.Pipe.{
  Who, message, count, System, behind, IsRead, IsPrint, Step, of_child, forks, fork_fails,
  waits as waits_for, wait_fails, reads as reads_from, prints,
}
use grade15_1linux.Pipe.Blocks.{block, blocks, length-block, text-block}
use grade15_1linux.Pipe.Points.{reads, IsRead-Moves, IsPrint-Moves, read-said, print-said}
use grade15_1linux.Pipe.Kept.{Inv, Next, of_child-Next}
use grade15_1linux.Pipe.Forks.{
  pipe_still, heard_still, of_fork-Next, fork_fails-Next, of_wait-Next, wait_fails-Next,
}

map_snoc : (cs : List Who) (c : Who) → map message (cs ++ c ∷ []) ≡ map message cs ++ message c ∷ []
map_snoc [] c = refl
map_snoc (x ∷ cs) c = ap (λ ms. message x ∷ ms) (map_snoc cs c)

-- The writer of the block that the next read takes.
record Oldest (outpipe : Bytes) (r : ℕ) (order : List Who) : Type 0 where
  writer : Who
  rest : List Who
  here : drop r order ≡ writer ∷ rest
  behind_it : drop (suc r) order ≡ rest
  with_it : take (suc r) order ≡ take r order ++ writer ∷ []
  inside : suc r ≤ length order

oldest :
    (outpipe : Bytes) (r : ℕ) (order : List Who)
    → blocks outpipe (drop r order) ≢ []
    → Oldest outpipe r order
oldest outpipe zero [] full = absurd (full refl)
oldest outpipe (suc r) [] full = absurd (full refl)
oldest outpipe zero (c ∷ order) full = record {
  writer = c;
  rest = order;
  here = refl;
  behind_it = refl;
  with_it = refl;
  inside = omega arith;
}
oldest outpipe (suc r) (c ∷ order) full =
    let o = oldest outpipe r order full in
    record {
      writer = o.writer;
      rest = o.rest;
      here = o.here;
      behind_it = o.behind_it;
      with_it = ap (λ cs. c ∷ cs) o.with_it;
      inside = omega (arith, o.inside);
    }

module _ (outpipe : Bytes) (size : length outpipe ≡ 100) (s : System)
    (inv : Inv outpipe size s) where
  of_read-Next :
      IsRead s.parent
      → s.pipe ≢ []
      → Next outpipe size s (record s {
        parent = behind s.parent;
        inpipe = splice 0 (take count s.pipe) s.inpipe;
        pipe = drop count s.pipe;
      })
  of_read-Next read full =
      let m = IsRead-Moves read in
      let r = reads s.parent in
      let o = oldest outpipe r inv.order (λ e. full (inv.in_pipe ∙ e)) in
      let more : reads (behind s.parent) ≡ suc r = omega (arith, m.reads_behind) in
      let writes = block outpipe o.writer in
      let whole = sym (length-block outpipe size o.writer) in
      let content : s.pipe ≡ writes ++ blocks outpipe o.rest =
        inv.in_pipe ∙ ap (blocks outpipe) o.here in
      let got : take count s.pipe ≡ writes =
        ap (take count) content ∙ take-append count writes (blocks outpipe o.rest) whole in
      let array = splice 0 (take count s.pipe) s.inpipe in
      let line : text array ≡ message o.writer =
        ap (λ b. text (b ++ drop (0 + length (take count s.pipe)) s.inpipe)) got
        ∙ text-block outpipe o.writer (drop (0 + length (take count s.pipe)) s.inpipe) in
      let before = sym ((read-said s.inpipe s.printed read).1 s.inpipe) ∙ inv.heard in
      record {
        inv = record {
          order = inv.order;
          tallies = inv.tallies;
          locks = inv.locks;
          formed = inv.formed;
          unborn = λ d h. inv.unborn d (m.future_behind d h);
          enough = omega (arith, o.inside, more);
          in_pipe =
              ap (drop count) content
              ∙ drop-append count writes (blocks outpipe o.rest) whole
              ∙ ap (blocks outpipe) (sym o.behind_it)
              ∙ ap (λ n. blocks outpipe (drop n inv.order)) (sym more);
          heard =
              (read-said array s.printed read).0
              ∙ ap₂ (λ ls (l : Bytes). ls ++ l ∷ []) before line
              ∙ sym (map_snoc (take r inv.order) o.writer)
              ∙ ap (map message) (sym o.with_it)
              ∙ ap (λ n. map message (take n inv.order)) (sym more);
          waited_le = omega (arith, inv.waited_le, m.waits_behind);
          waited = λ there. omega (arith, m.waits_behind, inv.waited there);
        };
        less = omega (arith, m.ahead_behind);
      }

  of_print-Next :
      IsPrint s.parent
      → Next outpipe size s
          (record s { parent = behind s.parent; printed = s.printed ++ text s.inpipe ∷ [] })
  of_print-Next print =
      let m = IsPrint-Moves print in
      let lines = s.printed ++ text s.inpipe ∷ [] in
      record {
        inv = record {
          order = inv.order;
          tallies = inv.tallies;
          locks = inv.locks;
          formed = inv.formed;
          unborn = λ d h. inv.unborn d (m.future_behind d h);
          enough = omega (arith, inv.enough, m.reads_behind);
          in_pipe = pipe_still outpipe size s inv m;
          heard =
              (print-said s.inpipe s.printed print).1 lines
              ∙ sym (print-said s.inpipe s.printed print).0
              ∙ heard_still outpipe size s inv m;
          waited_le = omega (arith, inv.waited_le, m.waits_behind);
          waited = λ there. omega (arith, m.waits_behind, inv.waited there);
        };
        less = omega (arith, m.ahead_behind);
      }

pub Step-Next :
    (outpipe : Bytes) (size : length outpipe ≡ 100) (s t : System)
    → Inv outpipe size s
    → Step outpipe s t
    → Next outpipe size s t
Step-Next outpipe size s t inv (of_child c e) = of_child-Next outpipe size s c _ _ _ inv e
Step-Next outpipe size s t inv (forks c fork) = of_fork-Next outpipe size s inv c fork
Step-Next outpipe size s t inv (fork_fails c fork) = fork_fails-Next outpipe size s inv c fork
Step-Next outpipe size s t inv (waits_for c wait over) = of_wait-Next outpipe size s inv c wait over
Step-Next outpipe size s t inv (wait_fails wait gone1 gone2) =
    wait_fails-Next outpipe size s inv wait gone1 gone2
Step-Next outpipe size s t inv (reads_from read full) = of_read-Next outpipe size s inv read full
Step-Next outpipe size s t inv (prints print) = of_print-Next outpipe size s inv print
