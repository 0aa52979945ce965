-- ===== src/LinkedList.antt =====
-- exp2/exp2.3.cpp: the words of the input, kept in a linked list on the heap until the word 114514 and
-- then printed. Chain is the list on the heap, Round and Printing its two loops, Words what the program
-- does on an input with that word, and without, where the assignment to a string that was never constructed
-- happens to work, and Undefined what it does where that is an error.
pub mod Chain
pub mod Round
pub mod Printing
pub mod Words
pub mod Undefined
mod Examples
use Prim.Native.String.{String}
use text.Mathlib.Text.{◌==◌ as str_eq}
use grade15_1linux.Common.{
  ℕ, zero, suc, Bool, true, false, Option, none, some, List, [], ◌∷◌, ◌++◌, ◌==◌, if◌then◌else◌,
}

-- How a part of the program ends: with a value, with undefined behaviour (an access through a null
-- pointer or outside the heap, or a string that was never constructed is printed), or not within its
-- fuel.
pub data Outcome (A : Type 0) : Type 0 where
  done : A → Outcome A
  fault : Outcome A
  running : Outcome A

-- `class Node`: `data` is `none` in memory from `malloc`, where no constructor of the string has run.
pub record Node : Type 0 where
  pub data_of : Option String
  pub next : ℕ

-- The objects on the heap by their address, and the state of the allocator.
pub record Heap (K : Type 0) : Type 0 where
  pub nodes : ℕ → Option Node
  pub kernel : K

-- The heap, the rest of the input and the lines printed so far.
pub record State (K : Type 0) : Type 0 where
  pub heap : Heap K
  pub input : List String
  pub output : List String

abbrev pub M : Type 0 → Type 0 → Type 0
M K A = State K → Outcome (A × State K)

infixl 5 ◌>>=◌ ◌>>◌
abbrev pub ◌>>=◌ : {K A B : Type 0} → M K A → (A → M K B) → M K B
◌>>=◌ m f s = elim (m s) [ done (a, s') ↦ f a s' | fault ↦ fault | running ↦ running ]

abbrev pub ◌>>◌ : {K A B : Type 0} → M K A → M K B → M K B
m >> k = m >>= λ _. k

abbrev pub pure : {K A : Type 0} → A → M K A
pure a s = done (a, s)

abbrev pub terminator : String
terminator = "114514"

abbrev pub place : (ℕ → Option Node) → ℕ → Node → ℕ → Option Node
place nodes p n a = if a == p then some n else nodes a

-- Node at an address: there is none at 0.
unfoldable pub load : {K : Type 0} → ℕ → M K Node
load zero s = fault
load (suc p) s = elim (s.heap.nodes (suc p)) [ none ↦ fault | some n ↦ done (n, s) ]

unfoldable pub store : {K : Type 0} → ℕ → Node → M K (Unit {0})
store p n s =
    done (tt, record s { heap = record { nodes = place s.heap.nodes p n; kernel = s.heap.kernel } })

-- `cin >> temp`: the next word, and at the end of the input `temp` as it is.
unfoldable pub next_word : {K : Type 0} → String → M K String
next_word temp s = elim s.input [
  | [] ↦ done (temp, s)
  | word ∷ words ↦ done (word, record s { input = words })
]

-- `cout << data << endl`
unfoldable pub print : {K : Type 0} → Option String → M K (Unit {0})
print none s = fault
print (some word) s = done (tt, record s { output = s.output ++ word ∷ [] })

-- `malloc` gives 0 or the address of a new node. `assign_raw` is what the assignment to a string does
-- on memory where none was constructed, which C++ leaves open: `none` is a fault.
module _ {K : Type 0} (malloc : Heap K → ℕ × Heap K) (assign_raw : String → Option String) where
  abbrev pub allocate : M K ℕ
  allocate s = let (p, h) = malloc s.heap in done (p, record s { heap = h })

  unfoldable pub assign : Option String → String → Option String
  assign none word = assign_raw word
  assign (some old) word = some word

  -- `p->data = word`
  unfoldable pub set_data : ℕ → String → M K (Unit {0})
  unfolding load store assign
  set_data p word = do
    node ← load p
    elim (assign node.data_of word) [
      | none ↦ λ s. fault
      | some text ↦ store p (record node { data_of = some text })
    ]

  -- `p->next = q`
  unfoldable pub set_next : ℕ → ℕ → M K (Unit {0})
  unfolding load store
  set_next p q = do node ← load p; store p (record node { next = q })

  -- The first loop, from `scanner` and `temp` on: `scanner` where it ends.
  unfoldable pub input_loop : ℕ → ℕ → String → M K ℕ
  unfolding next_word set_data set_next load
  input_loop zero scanner temp = λ s. running
  input_loop (suc fuel) scanner temp = do
    word ← next_word temp
    if str_eq word terminator
        then pure scanner
        else (do set_data scanner word; q ← allocate; set_next scanner q; input_loop fuel q word)

  -- The second loop.
  unfoldable pub print_loop : ℕ → ℕ → M K (Unit {0})
  unfolding load print
  print_loop zero scanner = λ s. running
  print_loop (suc fuel) scanner = do
    node ← load scanner
    if node.next == 0 then pure tt else (do print node.data_of; print_loop fuel node.next)

  -- The program, with fuel for each of its loops.
  unfoldable pub main : ℕ → M K (Unit {0})
  unfolding set_next load input_loop print_loop
  main fuel = do
    head ← allocate
    first ← allocate
    set_next head first
    scanner ← input_loop fuel first ""
    set_next scanner 0
    node ← load head
    print_loop fuel node.next
