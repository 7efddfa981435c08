-- ===== src/Freelist.antt =====
-- boost/lockfree/detail/freelist.hpp: `freelist_stack<T, allocate_may_allocate, Alloc>`, run by one
-- thread. The thread-safe operations loop round a `compare_exchange_weak`; the list of Booleans says
-- which of its calls fail for no reason, and the call behind its end does not.
pub mod Laws
pub mod Nodes
pub mod Agree
pub mod Reserve
pub mod Release
pub mod Concurrent
use boost_lockfree.Prelude.{
  ℕ, zero, suc, ◌+◌, Bool, true, false, ◌==◌, if◌then◌else◌, List, [], ◌∷◌, Run, ok, fault,
  out_of_fuel, none, ◌>>=◌,
}
use boost_lockfree.TaggedPtr.{TaggedPtrOps}
use boost_lockfree.Memory.{
  Memory, Node, null, Allocator, load, store, set_next, set_node, compare_exchange_weak,
}
use boost_lockfree.Memory as Heap

-- The atomic `pool_`, with the heap.
pub record Freelist (R A : Type 0) : Type 0 where
  pub mem : Memory R A
  pub pool : R

module _ {P : TaggedPtrOps} {A : Type 0} (al : Allocator P A) (may_allocate : Bool) where
  -- What `allocate` does on an empty pool.
  unfoldable pub exhausted : Freelist P.Rep A → Run (ℕ × Freelist P.Rep A)
  exhausted self =
      if may_allocate
      then (Heap.allocate al self.mem >>= λ (p, mem). ok (p, record self { mem = mem }))
      else ok (null, self)

  -- One round of the loop of `allocate`; `again` is the next.
  unfoldable pub allocate_round :
      (P.Rep → Freelist P.Rep A → Run (ℕ × Freelist P.Rep A))
      → Bool
      → P.Rep
      → Freelist P.Rep A
      → Run (ℕ × Freelist P.Rep A)
  unfolding exhausted
  allocate_round again spurious old_pool self =
      if P.get_ptr old_pool == null then exhausted self else do
        node ← load (P.get_ptr old_pool) self.mem
        let new_pool_ptr = P.get_ptr node.next
        let new_pool = P.make new_pool_ptr (P.get_tag old_pool + 1)
        let (done, expected, pool) = compare_exchange_weak P spurious old_pool new_pool self.pool
        let rest = again expected (record self { pool = pool })
        if done then ok (P.get_ptr old_pool, record self { pool = pool }) else rest

  unfoldable pub allocate_loop : List Bool → P.Rep → Freelist P.Rep A → Run (ℕ × Freelist P.Rep A)
  unfolding allocate_round
  allocate_loop [] old_pool self = allocate_round (λ _ _. out_of_fuel) false old_pool self
  allocate_loop (spurious ∷ more) old_pool self =
      allocate_round (allocate_loop more) spurious old_pool self

  unfoldable pub allocate : List Bool → Freelist P.Rep A → Run (ℕ × Freelist P.Rep A)
  unfolding allocate_loop
  allocate failures self = allocate_loop failures self.pool self

  unfoldable pub allocate_unsafe : Freelist P.Rep A → Run (ℕ × Freelist P.Rep A)
  unfolding exhausted
  allocate_unsafe self =
      let old_pool = self.pool in
      if P.get_ptr old_pool == null then exhausted self else do
        node ← load (P.get_ptr old_pool) self.mem
        let new_pool_ptr = P.get_ptr node.next
        ok (P.get_ptr old_pool, record self { pool = P.make new_pool_ptr (P.get_tag old_pool + 1) })

  -- `construct(arg)` and `construct()`: the constructor of the node puts the value `v` and treats
  -- `next` by `f`.
  unfoldable pub construct :
      List Bool → (P.Rep → P.Rep) → A → Freelist P.Rep A → Run (ℕ × Freelist P.Rep A)
  construct failures f v self = do
    (node, self') ← allocate failures self
    if node == null
        then ok (node, self')
        else do mem ← set_node node f v self'.mem; ok (node, record self' { mem = mem })

  unfoldable pub construct_unsafe :
      (P.Rep → P.Rep) → A → Freelist P.Rep A → Run (ℕ × Freelist P.Rep A)
  construct_unsafe f v self = do
    (node, self') ← allocate_unsafe self
    if node == null
        then ok (node, self')
        else do mem ← set_node node f v self'.mem; ok (node, record self' { mem = mem })

module _ (P : TaggedPtrOps) {A : Type 0} where
  unfoldable pub deallocate_round :
      (P.Rep → Freelist P.Rep A → Run (Freelist P.Rep A))
      → Bool
      → ℕ
      → P.Rep
      → Freelist P.Rep A
      → Run (Freelist P.Rep A)
  deallocate_round again spurious n old_pool self = do
    let new_pool = P.make n (P.get_tag old_pool)
    mem ← set_next (P.get_ptr new_pool) (λ r. P.set_ptr r (P.get_ptr old_pool)) self.mem
    let (done, expected, pool) = compare_exchange_weak P spurious old_pool new_pool self.pool
    let rest = again expected (record { mem = mem; pool = pool })
    if done then ok (record { mem = mem; pool = pool }) else rest

  unfoldable pub deallocate_loop : List Bool → ℕ → P.Rep → Freelist P.Rep A → Run (Freelist P.Rep A)
  unfolding deallocate_round
  deallocate_loop [] n old_pool self = deallocate_round (λ _ _. out_of_fuel) false n old_pool self
  deallocate_loop (spurious ∷ more) n old_pool self =
      deallocate_round (deallocate_loop more n) spurious n old_pool self

  unfoldable pub deallocate : List Bool → ℕ → Freelist P.Rep A → Run (Freelist P.Rep A)
  unfolding deallocate_loop
  deallocate failures n self = deallocate_loop failures n self.pool self

  unfoldable pub deallocate_unsafe : ℕ → Freelist P.Rep A → Run (Freelist P.Rep A)
  deallocate_unsafe n self = do
    let old_pool = self.pool
    let new_pool = P.make n (P.get_tag old_pool)
    mem ← set_next (P.get_ptr new_pool) (λ r. P.set_ptr r (P.get_ptr old_pool)) self.mem
    ok (record { mem = mem; pool = new_pool })

  -- The destructors of the nodes do nothing.
  unfoldable pub destruct : List Bool → ℕ → Freelist P.Rep A → Run (Freelist P.Rep A)
  unfolding deallocate
  destruct failures n self = deallocate failures n self

  unfoldable pub destruct_unsafe : ℕ → Freelist P.Rep A → Run (Freelist P.Rep A)
  unfolding deallocate_unsafe
  destruct_unsafe n self = deallocate_unsafe n self

module _ {P : TaggedPtrOps} {A : Type 0} (al : Allocator P A) where
  -- The rounds of the loop of `reserve`, each with the failures that its `deallocate` meets.
  unfoldable pub reserve : List (List Bool) → Freelist P.Rep A → Run (Freelist P.Rep A)
  reserve [] self = ok self
  reserve (failures ∷ more) self = Heap.allocate al self.mem >>= λ (node, mem).
      deallocate P failures node (record self { mem = mem }) >>= reserve more

  unfoldable pub reserve_unsafe : ℕ → Freelist P.Rep A → Run (Freelist P.Rep A)
  reserve_unsafe zero self = ok self
  reserve_unsafe (suc count) self = Heap.allocate al self.mem >>= λ (node, mem).
      deallocate_unsafe P node (record self { mem = mem }) >>= reserve_unsafe count

  -- A fresh heap, and the constructor `freelist_stack(n)`.
  abbrev pub no_memory : Memory P.Rep A
  no_memory = record { cells = λ _. none; allocated = 0 }

  unfoldable pub init : ℕ → Memory P.Rep A → Run (Freelist P.Rep A)
  unfolding reserve_unsafe
  init n mem = reserve_unsafe n (record { mem = mem; pool = P.make null 0 })

-- The destructor gives every node of the pool back; the addresses in the order of the calls of
-- `Alloc::deallocate`. The loop runs while the pointer is not null.
unfoldable pub release : (P : TaggedPtrOps) {A : Type 0} → ℕ → P.Rep → Memory P.Rep A → Run (List ℕ)
release P zero current m = out_of_fuel
release P (suc fuel) current m =
    let current_ptr = P.get_ptr current in
    let rest = load current_ptr m >>= λ node.
    release P fuel node.next m >>= λ more. ok (current_ptr ∷ more) in
    if current_ptr == null then ok [] else rest
