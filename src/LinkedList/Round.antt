-- ===== src/LinkedList/Round.antt =====
-- exp2/exp2.3.cpp: one round of the first loop.
use Prim.Native.String.{String}
use text.Mathlib.Text.{◌==◌ as str_eq}
use grade15_1linux.Common.{
  ℕ, suc, ◌≡◌, ◌≢◌, ◌∙◌, refl, ap, sym, subst, false, Option, none, some, List, [], ◌∷◌, ◌++◌, map,
}
use grade15_1linux.LinkedList.{
  done, Heap, State, next_word, set_data, set_next, input_loop, terminator,
}
use grade15_1linux.LinkedList.Chain.{
  node, MallocLaws, Chain, Chain-grow, place_same, place_other, Clean-malloc, Clean-put, put,
  bind_done, set_data_done, set_next_done, Building,
}

map-some_append :
    (words : List String) (w : String) → map some (words ++ w ∷ []) ≡ map some words ++ some w ∷ []
map-some_append [] w = refl
map-some_append (x ∷ words) w = ap (λ ds. some x ∷ ds) (map-some_append words w)

module _ {K : Type 0} (malloc : Heap K → ℕ × Heap K) (assign_raw : String → Option String)
    (laws : MallocLaws malloc) (memory : (h : Heap K) → (malloc h).0 ≢ 0)
    (works : (word : String) → assign_raw word ≡ some word) where
  -- One round of the input loop that does not end it.
  pub record Round (head scanner : ℕ) (temp w : String) (ws words : List String) (s : State K)
      : Type 0 where
    pub q : ℕ
    pub after : State K
    pub runs :
        (fuel : ℕ)
        → input_loop malloc assign_raw (suc fuel) scanner temp s
          ≡ input_loop malloc assign_raw fuel q w after
    pub building : Building laws.used head q (words ++ w ∷ []) after
    pub rest : (after.input ≡ ws) × (after.output ≡ s.output)

  pub round :
      (head scanner : ℕ) (temp w : String) (ws words : List String) (s : State K)
      → Building laws.used head scanner words s
      → next_word temp s ≡ done (w, record s { input = ws })
      → str_eq w terminator ≡ false
      → Round head scanner temp w ws words s
  unfolding input_loop
  round head scanner temp w ws words s b got other =
      let s1 = record s { input = ws } in
      let t1 = node (some w) b.junk in
      let s2 = put s1 scanner t1 in
      let q = (malloc s2.heap).0 in
      let s3 = record s2 { heap = (malloc s2.heap).1 } in
      let (junk, e) = laws.content s2.heap (memory s2.heap) in
      let clean2 = Clean-put laws.used s1 scanner (node none b.junk) t1 b.raw b.clean in
      let new = clean2 q (laws.fresh s2.heap (memory s2.heap)) in
      let here = place_same s.heap.nodes scanner t1 in
      let apart : scanner ≢ q = λ same. absurd (cc (ap s2.heap.nodes same)) in
      let held : s3.heap.nodes scanner ≡ some t1 =
        ap (λ t. t scanner) e ∙ place_other s2.heap.nodes q scanner (node none junk) apart ∙ here in
      let t3 = node (some w) q in
      let s4 = put s3 scanner t3 in
      let away : q ≢ scanner = λ same. apart (sym same) in
      let unused : s.heap.nodes q ≡ none = sym (place_other s.heap.nodes scanner q t1 away) ∙ new in
      let grown =
        Chain-grow {t' = s4.heap.nodes} (some w) (place_same s3.heap.nodes scanner t3)
          (λ z. absurd (cc (b.raw, z))) unused (memory s2.heap)
          (λ a x y.
            place_other s3.heap.nodes scanner a t3 x
            ∙ ap (λ t. t a) e
            ∙ place_other s2.heap.nodes q a (node none junk) y
            ∙ place_other s.heap.nodes scanner a t1 x)
          b.chain in
      record {
        q = q;
        after = s4;
        runs = λ fuel.
            bind_done (next_word temp) _ s w s1 got
            ∙ rw other (
                bind_done (set_data malloc assign_raw scanner w) _ s1 tt s2
                  (set_data_done malloc assign_raw scanner b.junk b.nonzero w s1 (works w) b.raw)
                ∙ bind_done (set_next malloc assign_raw scanner q) _ s3 tt s4
                    (set_next_done malloc assign_raw scanner b.junk b.nonzero (some w) q s3 held));
        building = record {
          chain =
              subst (λ ds. Chain s4.heap.nodes q head (none ∷ ds)) (sym (map-some_append words w))
                grown;
          nonzero = memory s2.heap;
          head_nonzero = b.head_nonzero;
          clean =
              Clean-put laws.used s3 scanner t1 t3 held
                (Clean-malloc malloc laws s2.heap (memory s2.heap) clean2);
          junk = junk;
          raw =
              place_other s3.heap.nodes scanner q t3 away
              ∙ ap (λ t. t q) e
              ∙ place_same s2.heap.nodes q (node none junk);
        };
        rest = (refl, refl);
      }
