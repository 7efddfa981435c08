-- ===== src/Stack/Pop.antt =====
-- `pop_unsafe` implements the pop of the specification, and `empty` its test.
use boost_lockfree.Prelude.{
  ℕ, ◌+◌, ◌<◌, ◌≡◌, refl, arith, Bool, true, false, [], ◌∷◌, length, Returns, ◌↔◌,
}
use boost_lockfree.TaggedPtr.{TaggedPtrOps}
use boost_lockfree.Memory.{Node, null, Allocator}
use boost_lockfree.Memory.Chain.{Cells, values, Chain, Chain-lt, Segment-frame, load-ok}
use boost_lockfree.Freelist.{Freelist, destruct_unsafe, deallocate_unsafe}
use boost_lockfree.Freelist.Laws.{not_null, known-lt}
use boost_lockfree.Freelist.Nodes.{deallocate_unsafe-Deallocated}
use boost_lockfree.Stack.{Stack, pop_unsafe, empty}
use boost_lockfree.Stack.Push.{StackInv, Holds}
use boost_lockfree.Stack.Spec
use boost_lockfree.Stack.Spec.{View}

-- The destructor of a node does nothing.
pub destruct-eq :
    (P : TaggedPtrOps) {A : Type 0} (a : ℕ) (list : Freelist P.Rep A)
    → destruct_unsafe P a list ≡ deallocate_unsafe P a list
unfolding destruct_unsafe deallocate_unsafe
destruct-eq P a list = refl

module _ {P : TaggedPtrOps} {A : Type 0} (al : Allocator P A) where
  -- The outcome of a pop, as the specification has it; no node is allocated.
  abbrev pub Popped : A → View A → Stack P.Rep A → Bool × A × Stack P.Rep A → Type 0
  Popped ret s self out =
      (out.0 ≡ (Spec.pop ret s).0)
      × (out.1 ≡ (Spec.pop ret s).1)
      × Holds al out.2 (Spec.pop ret s).2
      × (out.2.list.mem.allocated ≡ self.list.mem.allocated)

  module _ (ret : A) (self : Stack P.Rep A) (free : Cells A) where
    abbrev view_of : Cells A → View A
    view_of used = record { items = values used; spare = length free }

    pop-at :
        (used : Cells A)
        → StackInv al self used free
        → Returns (Popped ret (view_of used) self) (pop_unsafe P ret self)
    unfolding pop_unsafe Spec.pop
    pop-at [] inv = (
      (false, ret, self),
      rw inv.chain refl,
      (refl, refl, record { used = []; free = free; inv = inv; view = refl }, refl),
    )
    pop-at ((a, v) ∷ used) inv = popped inv.chain
      where
        popped :
            Chain P self.list.mem.cells (P.get_ptr self.tos) ((a, v) ∷ used)
            → Returns (Popped ret (view_of ((a, v) ∷ used)) self) (pop_unsafe P ret self)
        popped (e, ne, r, held, rest) =
            let node : Node P.Rep A = record { next = r; value = v } in
            let small : a < P.ptr_limit =
              known-lt al self.list free ((a, v) ∷ used) inv.pool a (ground arith) in
            let next_lt : P.get_ptr r < P.ptr_limit =
              Chain-lt P self.list.mem.cells (P.get_ptr r) P.ptr_limit used rest P.some_limit
                (λ b there. known-lt al self.list free ((a, v) ∷ used) inv.pool b (ground arith)) in
            let (list, run, back) =
              deallocate_unsafe-Deallocated al self.list a node free used inv.pool ne small held in
            let tos = P.make (P.get_ptr r) (P.get_tag self.tos + 1) in
            (
              (true, v, record { list = list; tos = tos }),
              rw
                  (
                    e,
                    not_null al a ne,
                    load-ok a node self.list.mem ne held,
                    destruct-eq P a self.list,
                    run,
                  )
                  refl,
              (
                refl,
                refl,
                record {
                  used = used;
                  free = (a, v) ∷ free;
                  inv = record {
                    chain = rw (P.get_ptr-make (P.get_ptr r) (P.get_tag self.tos + 1) next_lt) (
                        Segment-frame P self.list.mem.cells list.mem.cells null (P.get_ptr r) used
                          rest back.same);
                    pool = back.inv;
                  };
                  view = ground arith;
                },
                back.kept,
              ),
            )

  -- `pop_unsafe` does what the specification says: on an empty stack it returns false and changes
  -- nothing, else it takes the top value off and gives its node to the pool.
  pub pop_unsafe_refines :
      (ret : A) (self : Stack P.Rep A) (s : View A)
      → Holds al self s
      → Returns (Popped ret s self) (pop_unsafe P ret self)
  pop_unsafe_refines ret self s h = rw h.view (pop-at ret self h.free h.used h.inv)

  empty-values :
      (self : Stack P.Rep A) (used free : Cells A)
      → StackInv al self used free
      → (empty P self ≡ true) ↔ (values used ≡ [])
  unfolding empty
  empty-values self [] free inv = (λ e. refl, λ e. rw inv.chain)
  empty-values self ((a, v) ∷ used) free inv = (λ e. ground arith, λ e. cc)

  -- `empty` is true exactly when the stack holds no value.
  pub empty_iff :
      (self : Stack P.Rep A) (s : View A) → Holds al self s → (empty P self ≡ true) ↔ (s.items ≡ [])
  empty_iff self s h = rw h.view (empty-values self h.used h.free h.inv)
