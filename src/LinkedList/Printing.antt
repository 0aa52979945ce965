-- ===== src/LinkedList/Printing.antt =====
-- exp2/exp2.3.cpp: the second loop prints the list that was built.
use Prim.Native.String.{String}
use grade15_1linux.Common.{
  ℕ, zero, suc, ◌<◌, ◌≡◌, ◌≢◌, ◌∙◌, refl, ap, sym, arith, Bool, false, Option, none, some, List, [],
  ◌∷◌, ◌++◌, ◌==◌, map, append-nil, append_assoc, length,
}
use grade15_1linux.LinkedList.{
  done, Node, Heap, State, M, ◌>>=◌, ◌>>◌, load, print, set_next, print_loop,
}
use grade15_1linux.LinkedList.Chain.{
  node, Chain, stop, link, Chain-end, place_same, place_other, put, bind_done, load_done,
  set_next_done, Building,
}

Chain-next :
    {t : ℕ → Option Node} {q p : ℕ} {d : Option String} {ds : List (Option String)}
    → Chain t q p (d ∷ ds)
    → (n : ℕ) × (t p ≡ some (node d n)) × (n ≢ 0) × Chain t q n ds
Chain-next (link {n} apart away here rest) = (n, here, away, rest)

module _ {K : Type 0} (malloc : Heap K → ℕ × Heap K) (assign_raw : String → Option String) where
  print_loop_done :
      (ws : List String) (fuel q p : ℕ) (d : Option String) (s : State K)
      → length ws < fuel
      → s.heap.nodes q ≡ some (node d 0)
      → p ≢ 0
      → Chain s.heap.nodes q p (map some ws)
      → print_loop malloc assign_raw fuel p s ≡ done (tt, record s { output = s.output ++ ws })
  unfolding print_loop print
  print_loop_done ws zero q p d s enough last nonzero c = absurd (omega arith)
  print_loop_done [] (suc fuel) q p d s enough last nonzero stop =
      bind_done (load q) _ s (node d 0) s (load_done q (node d 0) s nonzero last)
      ∙ ap (λ o. done (tt, record s { output = o })) (sym (append-nil s.output))
  print_loop_done (w ∷ ws) (suc fuel) q p d s enough last nonzero (link {n} apart away here rest) =
      let more : (n == 0) ≡ false = ground arith in
      let told = record s { output = s.output ++ w ∷ [] } in
      bind_done (load p) _ s (node (some w) n) s (load_done p (node (some w) n) s nonzero here)
      ∙ rw more (print_loop_done ws fuel q n d told (omega arith) last away rest)
      ∙ ap (λ o. done (tt, record s { output = o })) (append_assoc s.output (w ∷ []) ws)

  -- The program behind its first loop.
  abbrev pub ends : ℕ → ℕ → ℕ → M K (Unit {0})
  ends fuel head scanner =
      set_next malloc assign_raw scanner 0
      >> (load head >>= λ n. print_loop malloc assign_raw fuel n.next)

  pub ends_done :
      {used : K → ℕ → Bool} (ws : List String) (fuel head scanner : ℕ) (s : State K)
      → length ws < fuel
      → Building used head scanner ws s
      → (s' : State K) × (ends fuel head scanner s ≡ done (tt, s'))
        × (s'.output ≡ s.output ++ ws)
        × (s'.input ≡ s.input)
  ends_done ws fuel head scanner s enough b =
      let s1 = put s scanner (node none 0) in
      let cut = set_next_done malloc assign_raw scanner b.junk b.nonzero none 0 s b.raw in
      let last = place_same s.heap.nodes scanner (node none 0) in
      let (n, first, away, rest) =
        Chain-next
          (Chain-end (λ a ne. place_other s.heap.nodes scanner a (node none 0) ne) b.chain) in
      (
        record s1 { output = s1.output ++ ws },
        bind_done (set_next malloc assign_raw scanner 0) _ s tt s1 cut
            ∙ bind_done (load head) _ s1 (node none n) s1
                (load_done head (node none n) s1 b.head_nonzero first)
            ∙ print_loop_done ws fuel scanner n none s1 enough last away rest,
        refl,
        refl,
      )
