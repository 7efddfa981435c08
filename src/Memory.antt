-- ===== src/Memory.antt =====
-- The nodes of the freelist, the stack and the fifo on an explicit heap, and what the code takes
-- from `std::allocator`. The link of a `freelist_node` and the `next` of a `node` are the same
-- storage, the first member of either, so a cell has one link and one value.
pub mod Chain
pub mod Links
use boost_lockfree.Prelude.{
  ℕ, ◌+◌, ◌<◌, ◌≡◌, ◌≢◌, Bool, true, false, ◌==◌, ltb, if◌then◌else◌, Option, none, some, Run, ok,
  fault, ◌>>=◌,
}
use boost_lockfree.TaggedPtr.{TaggedPtrOps}

abbrev pub null : ℕ
null = 0

pub record Node (R A : Type 0) : Type 0 where
  pub next : R
  pub value : A

-- The cells in use by the program, and how often it has called the allocator.
pub record Memory (R A : Type 0) : Type 0 where
  pub cells : ℕ → Option (Node R A)
  pub allocated : ℕ

-- `Alloc::allocate(1)`: the `i`-th call returns the storage at `addr i`, with anything in it. The
-- storages do not overlap, since none is given back while the pool lives. There is storage for
-- `supply` calls; a further one throws `std::bad_alloc`, which no operation catches.
pub record Allocator (P : TaggedPtrOps) (A : Type 0) : Type 0 where
  pub addr : ℕ → ℕ
  pub garbage : ℕ → Node P.Rep A
  pub supply : ℕ
  pub addr-ne-null : (i : ℕ) → i < supply → addr i ≢ null
  pub addr-lt : (i : ℕ) → i < supply → addr i < P.ptr_limit
  pub addr-injective : (i j : ℕ) → i < supply → j < supply → addr i ≡ addr j → i ≡ j

module _ {R A : Type 0} where
  abbrev pub put : (ℕ → Option (Node R A)) → ℕ → Node R A → ℕ → Option (Node R A)
  put cells p n a = if a == p then some n else cells a

  -- `*p`
  unfoldable pub load : ℕ → Memory R A → Run (Node R A)
  load p m = if p == null then fault else elim (m.cells p) [ none ↦ fault | some n ↦ ok n ]

  unfoldable pub store : ℕ → Node R A → Memory R A → Run (Memory R A)
  store p n m = do old ← load p m; ok (record m { cells = put m.cells p n })

  -- `p->next.…`
  abbrev pub set_next : ℕ → (R → R) → Memory R A → Run (Memory R A)
  set_next p f m = do n ← load p m; store p (record n { next = f n.next }) m

  -- the placement `new` of a node with this value, whose constructor treats `next` by `f`
  abbrev pub set_node : ℕ → (R → R) → A → Memory R A → Run (Memory R A)
  set_node p f v m = do n ← load p m; store p (record { next = f n.next; value = v }) m

unfoldable pub allocate :
    {P : TaggedPtrOps} {A : Type 0} → Allocator P A → Memory P.Rep A → Run (ℕ × Memory P.Rep A)
allocate al m =
    if ltb m.allocated al.supply
    then ok (
      al.addr m.allocated,
      record {
        cells = put m.cells (al.addr m.allocated) (al.garbage m.allocated);
        allocated = m.allocated + 1;
      },
    )
    else fault

-- `compare_exchange_weak` on the value `current`, which may fail for no reason: whether it
-- succeeded, what `expected` then holds, and the value.
unfoldable pub compare_exchange_weak :
    (P : TaggedPtrOps) → Bool → P.Rep → P.Rep → P.Rep → Bool × P.Rep × P.Rep
compare_exchange_weak P spurious expected desired current =
    if spurious
    then (false, current, current)
    else if P.equal expected current
    then (true, expected, desired)
    else (false, current, current)
