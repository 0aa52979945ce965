-- ===== src/TaskList/Ring.antt =====
-- exp1/exp1_8.c: the list of the tasks in the memory, and that it grows at its end.
use grade15_1linux.Common.{
  ℕ, ◌≡◌, ◌≢◌, ◌∙◌, refl, ap, sym, arith, Option, none, some, List, [], ◌∷◌, ◌++◌,
}
use grade15_1linux.TaskList.{Task, Node, place, add_tail}

abbrev pub node : Task → ℕ → Node
node d n = record { task = d; next = n }

-- From an address, the pointers lead through these tasks to the head.
pub data Chain (t : ℕ → Option Node) (head : ℕ) : ℕ → List Task → Type 0 where
  stop : Chain t head head []
  link :
      {p n : ℕ} {d : Task} {ds : List Task}
      → p ≢ head
      → t p ≡ some (node d n)
      → Chain t head n ds
      → Chain t head p (d ∷ ds)

-- Nothing follows the head.
pub Chain-done :
    {t : ℕ → Option Node} {head : ℕ} (p : ℕ) (ds : List Task)
    → p ≡ head
    → Chain t head p ds
    → ds ≡ []
Chain-done p [] same c = refl
Chain-done p (d ∷ ds) same (link apart here rest) = absurd (apart same)

-- At `p` is the node of the task `d`, and these tasks follow.
pub record Behind (t : ℕ → Option Node) (head p : ℕ) (d : Task) (ds : List Task) : Type 0 where
  pub next_of : ℕ
  pub here : t p ≡ some (node d next_of)
  pub rest : Chain t head next_of ds

-- Only one node points back to the head.
abbrev pub HasOneLast : (ℕ → Option Node) → ℕ → Type 0
HasOneLast t head =
    (p q : ℕ) (d e : Task) → t p ≡ some (node d head) → t q ≡ some (node e head) → p ≡ q

-- The kernel's list: behind the head, which stands in the task `init`, these tasks.
pub record IsTaskList (t : ℕ → Option Node) (head : ℕ) (init : Task) (ds : List Task) : Type 0 where
  pub all : Behind t head head init ds
  pub one_last : HasOneLast t head

pub place_same : (t : ℕ → Option Node) (p : ℕ) (n : Node) → place t p n p ≡ some n
place_same t p n = ground arith

pub place_other : (t : ℕ → Option Node) (p a : ℕ) (n : Node) → a ≢ p → place t p n a ≡ t a
place_other t p a n ne = ground arith

module _ (t : ℕ → Option Node) (head q a : ℕ) (last new : Task) (one_last : HasOneLast t head)
    (at_q : t q ≡ some (node last head)) (free : t a ≡ none) where
  unfoldable pub grown : ℕ → Option Node
  grown = add_tail head q last a new t

  free_ne : (p : ℕ) (n : Node) → t p ≡ some n → p ≢ a
  free_ne p n here same = absurd (cc (ap t same))

  grown_added : grown a ≡ some (node new head)
  unfolding grown
  grown_added = place_same (place t q (node last a)) a (node new head)

  grown_last : grown q ≡ some (node last a)
  unfolding grown
  grown_last =
      place_other (place t q (node last a)) a q (node new head) (free_ne q (node last head) at_q)
      ∙ place_same t q (node last a)

  grown_other : (p : ℕ) (n : Node) → p ≢ q → t p ≡ some n → grown p ≡ some n
  unfolding grown
  grown_other p n ne here =
      place_other (place t q (node last a)) a p (node new head) (free_ne p n here)
      ∙ place_other t q p (node last a) ne
      ∙ here

  -- What is behind a node of the list grows by the new task.
  pub Behind-grown :
      (p n : ℕ) (d : Task) (ds : List Task)
      → head ≢ a
      → t p ≡ some (node d n)
      → Chain t head n ds
      → Behind grown head p d (ds ++ new ∷ [])
  Behind-grown p n d [] apart here stop =
      let same : p ≡ q = one_last p q d last here at_q in
      let same_task : some (node last head) ≡ some (node d head) =
        sym at_q ∙ sym (ap t same) ∙ here in
      record {
        next_of = a;
        here = ap grown same ∙ grown_last ∙ cc;
        rest = link (λ e. apart (sym e)) grown_added stop;
      }
  Behind-grown p n d (e ∷ ds) apart here (link {n = m} away there rest) =
      let other : p ≢ q = λ same. away (cc (ap t same)) in
      let b = Behind-grown n m e ds apart there rest in
      record {
        next_of = n;
        here = grown_other p (node d n) other here;
        rest = link away b.here b.rest;
      }

  pub Chain-grown :
      (p : ℕ) (ds : List Task)
      → head ≢ a
      → p ≢ head
      → Chain t head p ds
      → Chain grown head p (ds ++ new ∷ [])
  Chain-grown p [] apart away stop = absurd (away refl)
  Chain-grown p (d ∷ ds) apart away (link {n} ne here rest) =
      let b = Behind-grown p n d ds apart here rest in link away b.here b.rest

  points_back : (x : ℕ) (d : Task) → head ≢ a → grown x ≡ some (node d head) → x ≡ a
  unfolding grown
  points_back x d apart at_x = ground (arith, one_last x q d last)

  pub HasOneLast-grown : head ≢ a → HasOneLast grown head
  HasOneLast-grown apart x y d e at_x at_y =
      points_back x d apart at_x ∙ sym (points_back y e apart at_y)

  pub grown_used : (p : ℕ) → t p ≢ none → grown p ≢ none
  unfolding grown
  grown_used p used gone = absurd (ground (arith, used))
