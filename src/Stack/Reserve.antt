-- ===== src/Stack/Reserve.antt =====
-- The constructors and `reserve` of the stack give the pool its first nodes.
use boost_lockfree.Prelude.{ℕ, ◌+◌, ◌≤◌, ◌≡◌, refl, ap, arith, Bool, List, [], length, Returns}
use boost_lockfree.TaggedPtr.{TaggedPtrOps}
use boost_lockfree.Memory.{Allocator, null}
use boost_lockfree.Memory.Chain.{Segment-frame}
use boost_lockfree.Freelist as Pool
use boost_lockfree.Freelist.{Freelist, no_memory}
use boost_lockfree.Freelist.Laws.{PoolInv}
use boost_lockfree.Freelist.Reserve.{reserve_unsafe-Reserved, reserve-agree}
use boost_lockfree.Stack.{Stack, construct, reserve, reserve_unsafe}
use boost_lockfree.Stack.Push.{Holds}
use boost_lockfree.Stack.Spec.{View}

module _ {P : TaggedPtrOps} {A : Type 0} (al : Allocator P A) where
  -- The stack that holds what it held, with `n` more free nodes.
  abbrev pub Grown : ℕ → View A → Stack P.Rep A → Stack P.Rep A → Type 0
  Grown n s self self' =
      Holds al self' (record { items = s.items; spare = s.spare + n })
      × (self'.list.mem.allocated ≡ self.list.mem.allocated + n)

  -- `reserve_unsafe(n)` adds `n` nodes to the pool, and the values stay. The allocator has storage
  -- for them.
  pub reserve_unsafe_refines :
      (n : ℕ) (self : Stack P.Rep A) (s : View A)
      → Holds al self s
      → self.list.mem.allocated + n ≤ al.supply
      → Returns (Grown n s self) (reserve_unsafe al n self)
  unfolding reserve_unsafe
  reserve_unsafe_refines n self s h left =
      let (list, run, r) = reserve_unsafe-Reserved al n self.list h.free h.used h.inv.pool left in
      (
        record self { list = list },
        rw run refl,
        (
          record {
            used = h.used;
            free = r.free';
            inv = record {
              chain =
                  Segment-frame P self.list.mem.cells list.mem.cells null (P.get_ptr self.tos)
                    h.used h.inv.chain r.same;
              pool = r.inv;
            };
            view = rw (h.view, r.size) refl;
          },
          r.grown,
        ),
      )

  -- `reserve` does what `reserve_unsafe` does, however often its calls of `compare_exchange_weak`
  -- fail for no reason. The allocator has storage for the nodes.
  pub stack_reserve-agree :
      (rounds : List (List Bool)) (self : Stack P.Rep A) (s : View A)
      → Holds al self s
      → self.list.mem.allocated + length rounds ≤ al.supply
      → reserve al rounds self ≡ reserve_unsafe al (length rounds) self
  unfolding reserve reserve_unsafe
  stack_reserve-agree rounds self s h left =
      rw (reserve-agree al rounds self.list h.free h.used h.inv.pool left)

  -- The pool of a stack under construction: a null pointer, no node.
  abbrev first_list : Freelist P.Rep A
  first_list = record { mem = no_memory al; pool = P.make null 0 }

  first_list-PoolInv : PoolInv al first_list [] []
  first_list-PoolInv = record {
    chain = P.get_ptr-make null 0 P.some_limit;
    apart = λ a. omega arith;
    known = λ a there. absurd (omega (arith, there));
    within = omega arith;
  }

  -- The constructor `stack(n)` gives an empty stack with `n` free nodes, on a heap that is not yet
  -- in use. The allocator has storage for them.
  pub construct_refines :
      (n : ℕ)
      → n ≤ al.supply
      → Returns
          (λ self. Holds al self (record { items = []; spare = n }) × (self.list.mem.allocated ≡ n))
          (construct al n (no_memory al))
  unfolding construct Pool.init Pool.reserve_unsafe
  construct_refines n left =
      let (list, run, r) =
        reserve_unsafe-Reserved al n first_list [] [] first_list-PoolInv (omega arith) in
      let size : n ≡ length r.free' = omega (arith, r.size) in
      (
        record { list = list; tos = P.make null 0 },
        rw run refl,
        (
          record {
            used = [];
            free = r.free';
            inv = record { chain = P.get_ptr-make null 0 P.some_limit; pool = r.inv };
            view = ap (λ (k : ℕ). record { items = []; spare = k }) size;
          },
          omega (arith, r.grown),
        ),
      )
