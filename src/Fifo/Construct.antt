-- ===== src/Fifo/Construct.antt =====
-- The constructors of the fifo put the dummy node in place and give the pool its first nodes.
use boost_lockfree.Prelude.{
  ℕ, suc, ◌+◌, ◌≤◌, ◌≡◌, refl, ap, arith, Bool, List, [], ◌∷◌, length, Returns,
}
use boost_lockfree.TaggedPtr.{TaggedPtrOps}
use boost_lockfree.Memory.{Allocator, null}
use boost_lockfree.Memory.Chain.{Cells}
use boost_lockfree.Freelist as Pool
use boost_lockfree.Freelist.{Freelist, no_memory}
use boost_lockfree.Freelist.Laws.{PoolInv}
use boost_lockfree.Freelist.Nodes.{construct_unsafe-cons}
use boost_lockfree.Freelist.Agree.{construct-agree}
use boost_lockfree.Freelist.Reserve.{reserve_unsafe-Reserved}
use boost_lockfree.Fifo.{dummy_next, initialize, construct}
use boost_lockfree.Fifo.Invariant.{Holds}

module _ {P : TaggedPtrOps} {A : Type 0} (al : Allocator P A) (may_allocate : Bool)
    (got : List Bool) (default : A) where
  initialize-Holds :
      (pool : Freelist P.Rep A) (free : Cells A) (n : ℕ)
      → PoolInv al pool free []
      → length free ≡ suc n
      → Returns
          (λ self.
            Holds al self (record { items = []; spare = n })
            × (self.list.mem.allocated ≤ pool.mem.allocated + 1))
          (initialize al may_allocate got default pool)
  unfolding initialize dummy_next
  initialize-Holds pool [] n inv size = absurd (omega (arith, size))
  initialize-Holds pool (x ∷ free) n inv size =
      let ((a, list), e, node) =
        construct_unsafe-cons al may_allocate (dummy_next P) default pool [] x free inv in
      let size' : n ≡ length free = omega (arith, size) in
      (
        record { list = list; head = P.make a 0; tail = P.make a 0 },
        rw (construct-agree al may_allocate got (dummy_next P) default pool, e) refl,
        (
          record {
            front = [];
            tail_at = a;
            tail_value = default;
            free = free;
            inv = record {
              before = P.get_ptr-make a 0 node.lt_limit;
              at_tail = P.get_ptr-make a 0 node.lt_limit;
              tail_ne = node.ne_null;
              last = dummy_next P node.link;
              held = node.holds;
              last_null = P.get_ptr-make null 0 P.some_limit;
              pool = node.inv;
            };
            view = ap (λ (k : ℕ). record { items = []; spare = k }) size';
          },
          node.grown,
        ),
      )

  first_list-PoolInv : PoolInv al (record { mem = no_memory al; pool = P.make null 0 }) [] []
  first_list-PoolInv = record {
    chain = P.get_ptr-make null 0 P.some_limit;
    apart = λ a. omega arith;
    known = λ a there. absurd (omega (arith, there));
    within = omega arith;
  }

  -- The constructor `fifo(n)` gives an empty fifo with `n` free nodes, on a heap that is not yet in
  -- use, and calls the allocator at most `n + 2` times. The allocator has storage for them and for the
  -- dummy node.
  pub fifo_construct_refines :
      (n : ℕ)
      → n + 1 ≤ al.supply
      → Returns
          (λ self.
            Holds al self (record { items = []; spare = n }) × (self.list.mem.allocated ≤ n + 2))
          (construct al may_allocate got default n (no_memory al))
  unfolding construct Pool.init Pool.reserve_unsafe
  fifo_construct_refines n left =
      let (list, run, r) =
        reserve_unsafe-Reserved al (n + 1) (record { mem = no_memory al; pool = P.make null 0 }) []
          [] first_list-PoolInv (omega arith) in
      let (self, run', after) = initialize-Holds list r.free' n r.inv (omega (arith, r.size)) in
      (self, rw run run', (after.0, omega (arith, after.1, r.grown)))
