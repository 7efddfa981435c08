-- ===== src/Memory/Chain.antt =====
-- Chains of nodes on the heap: what a link leads to, and how often an address stands in a chain.
use boost_lockfree.Prelude.{
  ℕ, ◌+◌, ◌<◌, ◌≡◌, ◌≢◌, ◌∙◌, arith, false, ◌==◌, if◌then◌else◌, Option, some, ok, List, [], ◌∷◌,
}
use boost_lockfree.TaggedPtr.{TaggedPtrOps}
use boost_lockfree.Memory.{Memory, Node, null, load, store, put}

-- address and value of each node of a chain
abbrev pub Cells : Type 0 → Type 0
Cells A = List (ℕ × A)

abbrev pub count : {A : Type 0} → ℕ → Cells A → ℕ
count a [] = 0
count a ((b, v) ∷ xs) = (if a == b then 1 else 0) + count a xs

abbrev pub values : {A : Type 0} → Cells A → List A
values [] = []
values ((b, v) ∷ xs) = v ∷ values xs

abbrev pub Heap : Type 0 → Type 0 → Type 0
Heap R A = ℕ → Option (Node R A)

module _ (P : TaggedPtrOps) {A : Type 0} where
  -- From the address `p` the links lead through the nodes `xs` to the address `stop`.
  abbrev pub Segment : Heap P.Rep A → ℕ → ℕ → Cells A → Type 0
  Segment cells stop p [] = p ≡ stop
  Segment cells stop p ((a, v) ∷ xs) =
      (p ≡ a)
      × (a ≢ null)
      × (r : P.Rep) × (cells a ≡ some (record { next = r; value = v }))
      × Segment cells stop (P.get_ptr r) xs

  -- A chain ends with a null link.
  abbrev pub Chain : Heap P.Rep A → ℕ → Cells A → Type 0
  Chain cells p xs = Segment cells null p xs

  -- A chain is still there on a heap that agrees at its nodes.
  pub Segment-frame :
      (cells cells' : Heap P.Rep A) (stop p : ℕ) (xs : Cells A)
      → Segment cells stop p xs
      → ((a : ℕ) → 0 < count a xs → cells' a ≡ cells a)
      → Segment cells' stop p xs
  Segment-frame cells cells' stop p [] c same = c
  Segment-frame cells cells' stop p ((a, v) ∷ xs) (e, ne, r, held, rest) same = (
    e,
    ne,
    r,
    same a (ground arith) ∙ held,
    Segment-frame cells cells' stop (P.get_ptr r) xs rest (λ b h. same b (ground arith)),
  )

module _ {R A : Type 0} (p : ℕ) (n : Node R A) (m : Memory R A) (ne : p ≢ null)
    (held : m.cells p ≡ some n) where
  not_null : (p == null) ≡ false
  not_null = ground arith

  pub load-ok : load p m ≡ ok n
  unfolding load
  load-ok = rw (not_null, held)

  pub store-ok : (n' : Node R A) → store p n' m ≡ ok (record m { cells = put m.cells p n' })
  unfolding store
  store-ok n' = rw load-ok

-- A chain of addresses within a limit starts within it.
pub Chain-lt :
    (P : TaggedPtrOps) {A : Type 0} (cells : Heap P.Rep A) (p limit : ℕ) (xs : Cells A)
    → Chain P cells p xs
    → 0 < limit
    → ((a : ℕ) → 0 < count a xs → a < limit)
    → p < limit
Chain-lt P cells p limit [] e some_limit small = rw e some_limit
Chain-lt P cells p limit ((a, v) ∷ xs) c some_limit small = rw c.0 (small a (ground arith))
