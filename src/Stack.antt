-- ===== src/Stack.antt =====
-- boost/lockfree/stack.hpp: `stack<T, freelist_t, Alloc>`, run by one thread. `may_allocate` tells
-- `caching_freelist_t` from `static_freelist_t`. Where a loop of the source calls
-- `compare_exchange_weak`, a list of Booleans says which calls fail for no reason.
pub mod Spec
pub mod Push
pub mod Pop
pub mod Agree
pub mod Reserve
pub mod Destroy
pub mod Client
pub mod Concurrent
pub mod Examples
use boost_lockfree.Prelude.{
  ℕ, zero, suc, ◌+◌, Bool, true, false, ◌==◌, if◌then◌else◌, not, List, [], ◌∷◌, Run, ok, fault,
  out_of_fuel, ◌>>=◌,
}
use boost_lockfree.TaggedPtr.{TaggedPtrOps}
use boost_lockfree.Memory.{Memory, Node, null, Allocator, load, set_next, compare_exchange_weak}
use boost_lockfree.Freelist as Pool
use boost_lockfree.Freelist.{Freelist}

-- The atomic `tos`, and the pool with its heap. A node has a link and a value.
pub record Stack (R A : Type 0) : Type 0 where
  pub list : Freelist R A
  pub tos : R

module _ {P : TaggedPtrOps} {A : Type 0} (al : Allocator P A) where
  -- The two constructors, on a heap that the allocator has not yet given to any pool.
  unfoldable pub construct : ℕ → Memory P.Rep A → Run (Stack P.Rep A)
  construct n mem = do
    list ← Pool.init al 0 mem
    list' ← Pool.reserve_unsafe al n list
    ok (record { list = list'; tos = P.make null 0 })

  unfoldable pub reserve : List (List Bool) → Stack P.Rep A → Run (Stack P.Rep A)
  reserve rounds self = do list ← Pool.reserve al rounds self.list; ok (record self { list = list })

  unfoldable pub reserve_unsafe : ℕ → Stack P.Rep A → Run (Stack P.Rep A)
  reserve_unsafe n self = do
    list ← Pool.reserve_unsafe al n self.list
    ok (record self { list = list })

module _ (P : TaggedPtrOps) {A : Type 0} where
  -- One round of the loop of `push`; `again` is the next.
  unfoldable pub push_round :
      (P.Rep → Stack P.Rep A → Run (Bool × Stack P.Rep A))
      → Bool
      → ℕ
      → P.Rep
      → Stack P.Rep A
      → Run (Bool × Stack P.Rep A)
  push_round again spurious newnode old_tos self = do
    let new_tos = P.make newnode (P.get_tag old_tos)
    mem ← set_next newnode (λ r. P.set_ptr r (P.get_ptr old_tos)) self.list.mem
    let list : Freelist P.Rep A = record { mem = mem; pool = self.list.pool }
    let (done, expected, tos) = compare_exchange_weak P spurious old_tos new_tos self.tos
    let rest = again expected (record { list = list; tos = tos })
    if done then ok (true, record { list = list; tos = tos }) else rest

  unfoldable pub push_loop : List Bool → ℕ → P.Rep → Stack P.Rep A → Run (Bool × Stack P.Rep A)
  unfolding push_round
  push_loop [] newnode old_tos self = push_round (λ _ _. out_of_fuel) false newnode old_tos self
  push_loop (spurious ∷ more) newnode old_tos self =
      push_round (push_loop more newnode) spurious newnode old_tos self

  -- One round of the loop of `pop`. `freed` are the failures that `pool.destruct` meets.
  unfoldable pub pop_round :
      (P.Rep → Stack P.Rep A → Run (Bool × A × Stack P.Rep A))
      → Bool
      → List Bool
      → A
      → P.Rep
      → Stack P.Rep A
      → Run (Bool × A × Stack P.Rep A)
  pop_round again spurious freed ret old_tos self =
      if P.get_ptr old_tos == null then ok (false, ret, self) else do
        node ← load (P.get_ptr old_tos) self.list.mem
        let new_tos = P.make (P.get_ptr node.next) (P.get_tag old_tos + 1)
        let (done, expected, tos) = compare_exchange_weak P spurious old_tos new_tos self.tos
        let rest = again expected (record self { tos = tos })
        let last = load (P.get_ptr old_tos) self.list.mem >>= λ top.
            Pool.destruct P freed (P.get_ptr old_tos) self.list >>= λ list.
            ok (true, top.value, record { list = list; tos = tos })
        if done then last else rest

  unfoldable pub pop_loop :
      List Bool → List Bool → A → P.Rep → Stack P.Rep A → Run (Bool × A × Stack P.Rep A)
  unfolding pop_round
  pop_loop [] freed ret old_tos self = pop_round (λ _ _. out_of_fuel) false freed ret old_tos self
  pop_loop (spurious ∷ more) freed ret old_tos self =
      pop_round (pop_loop more freed ret) spurious freed ret old_tos self

  unfoldable pub pop : List Bool → List Bool → A → Stack P.Rep A → Run (Bool × A × Stack P.Rep A)
  unfolding pop_loop
  pop failures freed ret self = pop_loop failures freed ret self.tos self

  -- `ret` keeps its value when the stack is empty.
  unfoldable pub pop_unsafe : A → Stack P.Rep A → Run (Bool × A × Stack P.Rep A)
  pop_unsafe ret self =
      let old_tos = self.tos in
      if P.get_ptr old_tos == null then ok (false, ret, self) else do
        node ← load (P.get_ptr old_tos) self.list.mem
        let new_tos = P.make (P.get_ptr node.next) (P.get_tag old_tos + 1)
        list ← Pool.destruct_unsafe P (P.get_ptr old_tos) self.list
        ok (true, node.value, record { list = list; tos = new_tos })

  unfoldable pub empty : Stack P.Rep A → Bool
  empty self = P.get_ptr self.tos == null

  -- `while (pop_unsafe(dummy)) ;` of the destructor
  unfoldable pub drain : ℕ → A → Stack P.Rep A → Run (Stack P.Rep A)
  unfolding pop_unsafe
  drain zero dummy self = out_of_fuel
  drain (suc fuel) dummy self = pop_unsafe dummy self >>= λ (done, dummy', self'). elim done [
    | true ↦ drain fuel dummy' self'
    | false ↦ ok self'
  ]

  -- The destructor, with that of its pool: the addresses that are given back.
  unfoldable pub destroy : ℕ → ℕ → A → Stack P.Rep A → Run (List ℕ)
  unfolding empty drain
  destroy fuel fuel' dummy self =
      (if empty self then ok self else drain fuel dummy self) >>= λ self'.
      Pool.release P fuel' self'.list.pool self'.list.mem

module _ {P : TaggedPtrOps} {A : Type 0} (al : Allocator P A) (may_allocate : Bool) where
  -- The constructor of a node leaves `next` as it is. `got` are the failures that
  -- `pool.construct` meets.
  unfoldable pub push : List Bool → List Bool → A → Stack P.Rep A → Run (Bool × Stack P.Rep A)
  unfolding push_loop
  push failures got v self = do
    (newnode, list) ← Pool.construct al may_allocate got (λ r. r) v self.list
    if newnode == null
        then ok (false, record self { list = list })
        else push_loop P failures newnode self.tos (record self { list = list })

  unfoldable pub push_unsafe : A → Stack P.Rep A → Run (Bool × Stack P.Rep A)
  push_unsafe v self = do
    (newnode, list) ← Pool.construct_unsafe al may_allocate (λ r. r) v self.list
    if newnode == null then ok (false, record self { list = list }) else do
      let old_tos = self.tos
      let new_tos = P.make newnode (P.get_tag old_tos)
      mem ← set_next newnode (λ r. P.set_ptr r (P.get_ptr old_tos)) list.mem
      ok (true, record { list = record { mem = mem; pool = list.pool }; tos = new_tos })
