-- ===== src/LinkedList/Chain.antt =====
-- exp2/exp2.3.cpp: the list on the heap while the program builds it, and its commands on that list.
use Prim.Native.String.{String}
use text.Mathlib.Text.{◌==◌ as str_eq}
use grade15_1linux.Common.{
  ℕ, zero, suc, ◌≡◌, ◌≢◌, ◌∙◌, refl, ap, sym, arith, Bool, false, Option, none, some, List, [], ◌∷◌,
  ◌++◌, ◌==◌, ◌||◌, map,
}
use grade15_1linux.LinkedList.{
  done, Node, Heap, State, M, ◌>>=◌, place, load, store, set_data, set_next, assign, terminator,
}

abbrev pub node : Option String → ℕ → Node
node d n = record { data_of = d; next = n }

-- The documented behaviour of `malloc`, whose own state tells the addresses in use: an address that is
-- not 0 was not in use and comes into use, its memory has anything in it, but no string; nothing else
-- changes.
pub record MallocLaws {K : Type 0} (malloc : Heap K → ℕ × Heap K) : Type 0 where
  pub used : K → ℕ → Bool
  pub fresh : (h : Heap K) → (malloc h).0 ≢ 0 → used h.kernel (malloc h).0 ≡ false
  pub taken :
      (h : Heap K) (a : ℕ)
      → (malloc h).0 ≢ 0
      → used (malloc h).1.kernel a ≡ (a == (malloc h).0 || used h.kernel a)
  pub content :
      (h : Heap K)
      → (malloc h).0 ≢ 0
      → (junk : ℕ) × ((malloc h).1.nodes ≡ place h.nodes (malloc h).0 (node none junk))

-- No object stands where the memory is not in use.
abbrev pub Clean : {K : Type 0} → (K → ℕ → Bool) → Heap K → Type 0
Clean used h = (a : ℕ) → used h.kernel a ≡ false → h.nodes a ≡ none

-- No word is the terminator.
abbrev pub AllOther : List String → Type 0
AllOther [] = Unit {0}
AllOther (word ∷ words) = (str_eq word terminator ≡ false) × AllOther words

-- From a node, the pointers lead through nodes with these data to the node `q`.
pub data Chain (t : ℕ → Option Node) (q : ℕ) : ℕ → List (Option String) → Type 0 where
  stop : Chain t q q []
  link :
      {p n : ℕ} {d : Option String} {ds : List (Option String)}
      → p ≢ q
      → n ≢ 0
      → t p ≡ some (node d n)
      → Chain t q n ds
      → Chain t q p (d ∷ ds)

-- A chain whose last node gets data and a new node behind it.
pub Chain-grow :
    {t t' : ℕ → Option Node} {q r p : ℕ} {ds : List (Option String)} (d : Option String)
    → t' q ≡ some (node d r)
    → t q ≢ none
    → t r ≡ none
    → r ≢ 0
    → ((a : ℕ) → a ≢ q → a ≢ r → t' a ≡ t a)
    → Chain t q p ds
    → Chain t' r p (ds ++ d ∷ [])
Chain-grow {t} d last used new nonzero same stop = link (λ e. used (ap t e ∙ new)) nonzero last stop
Chain-grow {t} {r} d last used new nonzero same (link {p} apart away here rest) =
    let other : p ≢ r = λ e. absurd (cc (ap t e)) in
    link other away (same p apart other ∙ here) (Chain-grow d last used new nonzero same rest)

-- A change of the last node alone.
pub Chain-end :
    {t t' : ℕ → Option Node} {q p : ℕ} {ds : List (Option String)}
    → ((a : ℕ) → a ≢ q → t' a ≡ t a)
    → Chain t q p ds
    → Chain t' q p ds
Chain-end same stop = stop
Chain-end same (link {p} apart away here rest) =
    link apart away (same p apart ∙ here) (Chain-end same rest)

pub place_same : (t : ℕ → Option Node) (p : ℕ) (n : Node) → place t p n p ≡ some n
place_same t p n = ground arith

pub place_other : (t : ℕ → Option Node) (p a : ℕ) (n : Node) → a ≢ p → place t p n a ≡ t a
place_other t p a n ne = ground arith

neither : (a b : Bool) → (a || b) ≡ false → (a ≡ false) × (b ≡ false)
neither a b e = ground arith

pub Clean-malloc :
    {K : Type 0} (malloc : Heap K → ℕ × Heap K) (laws : MallocLaws malloc) (h : Heap K)
    → (malloc h).0 ≢ 0
    → Clean laws.used h
    → Clean laws.used (malloc h).1
Clean-malloc malloc laws h ok clean a free =
    let (junk, e) = laws.content h ok in
    let kept : (a == (malloc h).0 || laws.used h.kernel a) ≡ false =
      sym (laws.taken h a ok) ∙ free in
    let (apart, before) = neither (a == (malloc h).0) (laws.used h.kernel a) kept in
    ap (λ t. t a) e
    ∙ place_other h.nodes (malloc h).0 a (node none junk) (λ same. ground arith)
    ∙ clean a before

abbrev pub put : {K : Type 0} → State K → ℕ → Node → State K
put s p n = record s { heap = record { nodes = place s.heap.nodes p n; kernel = s.heap.kernel } }

pub Clean-put :
    {K : Type 0} (used : K → ℕ → Bool) (s : State K) (p : ℕ) (n n' : Node)
    → s.heap.nodes p ≡ some n
    → Clean used s.heap
    → Clean used (put s p n').heap
Clean-put used s p n n' here clean a free =
    let none_here = clean a free in
    place_other s.heap.nodes p a n' (λ same. absurd (cc (ap s.heap.nodes same))) ∙ none_here

pub bind_done :
    {K A B : Type 0} (m : M K A) (f : A → M K B) (s : State K) (a : A) (s' : State K)
    → m s ≡ done (a, s')
    → (m >>= f) s ≡ f a s'
bind_done m f s a s' e = rw (e, ◌>>=◌) refl

pub load_done :
    {K : Type 0} (p : ℕ) (n : Node) (s : State K)
    → p ≢ 0
    → s.heap.nodes p ≡ some n
    → load p s ≡ done (n, s)
unfolding load
load_done zero n s nonzero e = absurd (nonzero refl)
load_done (suc p) n s nonzero e = rw (e, load) refl

-- Each command of the input loop, on the raw node at its end.
module _ {K : Type 0} (malloc : Heap K → ℕ × Heap K) (assign_raw : String → Option String)
    (p junk : ℕ) (nonzero : p ≢ 0) where
  pub set_data_done :
      (word : String) (s : State K)
      → assign_raw word ≡ some word
      → s.heap.nodes p ≡ some (node none junk)
      → set_data malloc assign_raw p word s ≡ done (tt, put s p (node (some word) junk))
  unfolding set_data store assign
  set_data_done word s raw e =
      bind_done (load p) _ s (node none junk) s (load_done p (node none junk) s nonzero e)
      ∙ rw raw refl

  pub set_next_done :
      (d : Option String) (q : ℕ) (s : State K)
      → s.heap.nodes p ≡ some (node d junk)
      → set_next malloc assign_raw p q s ≡ done (tt, put s p (node d q))
  unfolding set_next store
  set_next_done d q s e =
      bind_done (load p) _ s (node d junk) s (load_done p (node d junk) s nonzero e)

-- The list while it is built: from `head`, the words so far, and then a raw node.
pub record Building {K : Type 0} (used : K → ℕ → Bool) (head scanner : ℕ) (words : List String)
    (s : State K) : Type 0 where
  pub chain : Chain s.heap.nodes scanner head (none ∷ map some words)
  pub nonzero : scanner ≢ 0
  pub head_nonzero : head ≢ 0
  pub clean : Clean used s.heap
  pub junk : ℕ
  pub raw : s.heap.nodes scanner ≡ some (node none junk)
