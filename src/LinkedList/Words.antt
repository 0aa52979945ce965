-- ===== src/LinkedList/Words.antt =====
-- exp2/exp2.3.cpp: the program prints the words before the first 114514, and does not end without it.
use Prim.Native.String.{String}
use text.Mathlib.Text.{◌==◌ as str_eq}
use grade15_1linux.Common.{
  ℕ, zero, suc, ◌<◌, ◌≡◌, ◌≢◌, ◌∙◌, refl, ap, sym, subst, arith, false, Option, none, some, List,
  [], ◌∷◌, ◌++◌, append-nil, append_assoc, length,
}
use grade15_1linux.LinkedList.{
  done, running, Heap, State, ◌>>=◌, next_word, set_next, input_loop, main, terminator,
}
use grade15_1linux.LinkedList.Chain.{
  node, MallocLaws, AllOther, stop, link, place_same, place_other, Clean, Clean-malloc, Clean-put,
  put, bind_done, set_next_done, Building,
}
use grade15_1linux.LinkedList.Printing.{ends, ends_done}
use grade15_1linux.LinkedList.Round.{round}

pub next_word_some :
    {K : Type 0} (temp w : String) (ws : List String) (s : State K)
    → s.input ≡ w ∷ ws
    → next_word temp s ≡ done (w, record s { input = ws })
unfolding next_word
next_word_some temp w ws s e = rw e refl

next_word_none :
    {K : Type 0} (temp : String) (s : State K)
    → s.input ≡ []
    → next_word temp s ≡ done (temp, record s { input = [] })
unfolding next_word
next_word_none temp s e =
    subst (λ i. next_word temp (record s { input = i }) ≡ done (temp, record s { input = [] }))
      (sym e) refl

module _ {K : Type 0} (malloc : Heap K → ℕ × Heap K) (assign_raw : String → Option String)
    (laws : MallocLaws malloc) (memory : (h : Heap K) → (malloc h).0 ≢ 0)
    (works : (word : String) → assign_raw word ≡ some word) where
  -- The first loop, on words that another one or the terminator follows.
  input_loop_done :
      (fuel head scanner : ℕ) (temp : String) (old ws rest : List String) (s : State K)
      → length ws < fuel
      → AllOther ws
      → s.input ≡ ws ++ terminator ∷ rest
      → Building laws.used head scanner old s
      → (q : ℕ) × (s' : State K) × (input_loop malloc assign_raw fuel scanner temp s ≡ done (q, s'))
        × Building laws.used head q (old ++ ws) s'
        × (s'.output ≡ s.output)
        × (s'.input ≡ rest)
  unfolding input_loop
  input_loop_done zero head scanner temp old ws rest s enough other e b = absurd (omega arith)
  input_loop_done (suc fuel) head scanner temp old [] rest s enough other e b =
      let s' = record s { input = rest } in
      (
        scanner,
        s',
        bind_done (next_word temp) _ s terminator s' (next_word_some temp terminator rest s e),
        subst (λ words. Building laws.used head scanner words s') (sym (append-nil old))
            (record {
              chain = b.chain;
              nonzero = b.nonzero;
              head_nonzero = b.head_nonzero;
              clean = b.clean;
              junk = b.junk;
              raw = b.raw;
            }),
        refl,
        refl,
      )
  input_loop_done (suc fuel) head scanner temp old (w ∷ ws) rest s enough other e b =
      let got = next_word_some temp w (ws ++ terminator ∷ rest) s e in
      let r =
        round malloc assign_raw laws memory works head scanner temp w (ws ++ terminator ∷ rest) old
          s b got other.0 in
      let (q, s', runs, built, output, input) =
        input_loop_done fuel head r.q w (old ++ w ∷ []) ws rest r.after (omega arith) other.1
          r.rest.0 r.building in
      (
        q,
        s',
        r.runs fuel ∙ runs,
        subst (λ words. Building laws.used head q words s') (append_assoc old (w ∷ []) ws) built,
        output ∙ r.rest.1,
        input,
      )

  -- Without the terminator, the first loop goes on, also at the end of the input.
  input_loop_endless :
      (fuel head scanner : ℕ) (temp : String) (old ws : List String) (s : State K)
      → (str_eq temp terminator ≡ false)
      → AllOther ws
      → s.input ≡ ws
      → Building laws.used head scanner old s
      → input_loop malloc assign_raw fuel scanner temp s ≡ running
  unfolding input_loop
  input_loop_endless zero head scanner temp old ws s last other e b = refl
  input_loop_endless (suc fuel) head scanner temp old [] s last other e b =
      let r =
        round malloc assign_raw laws memory works head scanner temp temp [] old s b
          (next_word_none temp s e) last in
      r.runs fuel
      ∙ input_loop_endless fuel head r.q temp (old ++ temp ∷ []) [] r.after last tt r.rest.0
          r.building
  input_loop_endless (suc fuel) head scanner temp old (w ∷ ws) s last other e b =
      let r =
        round malloc assign_raw laws memory works head scanner temp w ws old s b
          (next_word_some temp w ws s e) other.0 in
      r.runs fuel
      ∙ input_loop_endless fuel head r.q w (old ++ w ∷ []) ws r.after other.0 other.1 r.rest.0
          r.building

  -- The two nodes that the program begins with.
  record Begun (s : State K) : Type 0 where
    head : ℕ
    first : ℕ
    after : State K
    runs :
        (fuel : ℕ)
        → main malloc assign_raw fuel s
          ≡ (input_loop malloc assign_raw fuel first "" >>= ends malloc assign_raw fuel head) after
    building : Building laws.used head first [] after
    rest : (after.input ≡ s.input) × (after.output ≡ s.output)

  begun : (s : State K) → Clean laws.used s.heap → Begun s
  unfolding main
  begun s clean =
      let head = (malloc s.heap).0 in
      let s1 = record s { heap = (malloc s.heap).1 } in
      let first = (malloc s1.heap).0 in
      let s2 = record s1 { heap = (malloc s1.heap).1 } in
      let s3 = put s2 head (node none first) in
      let (junk, e) = laws.content s.heap (memory s.heap) in
      let (junk', e') = laws.content s1.heap (memory s1.heap) in
      let raw : s1.heap.nodes head ≡ some (node none junk) =
        ap (λ t. t head) e ∙ place_same s.heap.nodes head (node none junk) in
      let clean1 = Clean-malloc malloc laws s.heap (memory s.heap) clean in
      let clean2 = Clean-malloc malloc laws s1.heap (memory s1.heap) clean1 in
      let new = clean1 first (laws.fresh s1.heap (memory s1.heap)) in
      let apart : head ≢ first = λ same. absurd (cc (ap s1.heap.nodes same)) in
      let held : s2.heap.nodes head ≡ some (node none junk) =
        ap (λ t. t head) e' ∙ place_other s1.heap.nodes first head (node none junk') apart ∙ raw in
      record {
        head = head;
        first = first;
        after = s3;
        runs = λ fuel.
            bind_done (set_next malloc assign_raw head first) _ s2 tt s3
              (set_next_done malloc assign_raw head junk (memory s.heap) none first s2 held);
        building = record {
          chain =
              link apart (memory s1.heap) (place_same s2.heap.nodes head (node none first)) stop;
          nonzero = memory s1.heap;
          head_nonzero = memory s.heap;
          clean = Clean-put laws.used s2 head (node none junk) (node none first) held clean2;
          junk = junk';
          raw =
              place_other s2.heap.nodes head first (node none first) (λ same. apart (sym same))
              ∙ ap (λ t. t first) e'
              ∙ place_same s1.heap.nodes first (node none junk');
        };
        rest = (refl, refl);
      }

  -- Where `malloc` never fails, the assignment to a string works in its memory, and no object
  -- stands where memory is not in use at first: on an input with the word 114514, the program ends
  -- without a fault, on fuel larger than the number of the words before it; it has then printed
  -- exactly these words, in their order, and left the rest of the input.
  pub main_prints :
      (words rest : List String) (fuel : ℕ) (s : State K)
      → Clean laws.used s.heap
      → AllOther words
      → s.input ≡ words ++ terminator ∷ rest
      → length words < fuel
      → (s' : State K) × (main malloc assign_raw fuel s ≡ done (tt, s'))
        × (s'.output ≡ s.output ++ words)
        × (s'.input ≡ rest)
  main_prints words rest fuel s clean other e enough =
      let b = begun s clean in
      let (q, s1, runs, built, output, input) =
        input_loop_done fuel b.head b.first "" [] words rest b.after enough other (b.rest.0 ∙ e)
          b.building in
      let (s', ended, printed, left) =
        ends_done malloc assign_raw words fuel b.head q s1 enough built in
      (
        s',
        b.runs fuel
            ∙ bind_done (input_loop malloc assign_raw fuel b.first "") _ b.after q s1 runs
            ∙ ended,
        printed ∙ ap (λ o. o ++ words) (output ∙ b.rest.1),
        left ∙ input,
      )

  -- Where `malloc` never fails, the assignment to a string works in its memory, and no object
  -- stands where memory is not in use at first: on an input without the word 114514, the program
  -- does not end, whatever its fuel is: at the end of the input it goes on with its last word.
  pub main_endless :
      (fuel : ℕ) (s : State K)
      → Clean laws.used s.heap
      → AllOther s.input
      → main malloc assign_raw fuel s ≡ running
  main_endless fuel s clean other =
      let b = begun s clean in
      b.runs fuel
      ∙ rw
          (
            input_loop_endless fuel b.head b.first "" [] s.input b.after refl other b.rest.0
                b.building,
            ◌>>=◌,
          )
          refl
