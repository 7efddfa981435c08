-- ===== src/Freelist/Nodes.antt =====
-- What the client gets from `construct` and gives back by `destruct`.
use boost_lockfree.Prelude.{
  ℕ, ◌+◌, ◌≤◌, ◌<◌, ◌≡◌, ◌≢◌, refl, arith, Bool, true, false, some, ok, fault, [], ◌∷◌, Returns,
}
use boost_lockfree.TaggedPtr.{TaggedPtrOps}
use boost_lockfree.Memory.{Node, null, Allocator, put}
use boost_lockfree.Memory.Chain.{Cells, count, Chain, Chain-lt, Segment-frame, load-ok, store-ok}
use boost_lockfree.Freelist.{Freelist, allocate_unsafe, construct_unsafe, deallocate_unsafe}
use boost_lockfree.Freelist.Laws.{
  PoolInv, Allocated, known-lt, not_null, allocate_unsafe-cons, allocate_unsafe-none,
  allocate_unsafe-new, allocate_unsafe-throws,
}

module _ {P : TaggedPtrOps} {A : Type 0} (al : Allocator P A) where
  -- A node of the client's with value `v` and a link that the node's constructor made by `f`.
  pub record Constructed (f : P.Rep → P.Rep) (v : A) (self : Freelist P.Rep A)
      (free' owned : Cells A) (a : ℕ) (self' : Freelist P.Rep A) : Type 0 where
    pub ne_null : a ≢ null
    pub lt_limit : a < P.ptr_limit
    pub unowned : count a owned ≡ 0
    pub link : P.Rep
    pub holds : self'.mem.cells a ≡ some (record { next = f link; value = v })
    pub same : (b : ℕ) → 0 < count b owned → self'.mem.cells b ≡ self.mem.cells b
    pub inv : PoolInv al self' free' ((a, v) ∷ owned)
    pub grown : self'.mem.allocated ≤ self.mem.allocated + 1

  module _ (may_allocate : Bool) (f : P.Rep → P.Rep) (v : A) (self : Freelist P.Rep A)
      (owned : Cells A) where
    construct-Constructed :
        (free' : Cells A) (a : ℕ) (self' : Freelist P.Rep A)
        → allocate_unsafe al may_allocate self ≡ ok (a, self')
        → Allocated al self free' owned a self'
        → Returns
            (λ (a', self''). Constructed f v self free' owned a' self'')
            (construct_unsafe al may_allocate f v self)
    unfolding construct_unsafe
    construct-Constructed free' a self' e got = (
      (a, built),
      rw
          (
            e,
            not_null al a got.ne_null,
            load-ok a got.node self'.mem got.ne_null got.holds,
            store-ok a got.node self'.mem got.ne_null got.holds,
          )
          refl,
      record {
        ne_null = got.ne_null;
        lt_limit = got.lt_limit;
        unowned = got.unowned;
        link = got.node.next;
        holds = ground arith;
        same = λ b there. ground (arith, got.same b, got.unowned);
        inv = record {
          chain =
              Segment-frame P self'.mem.cells built.mem.cells null (P.get_ptr self'.pool) free'
                (got.inv v).chain (λ b there. ground (arith, (got.inv v).apart a));
          apart = (got.inv v).apart;
          known = (got.inv v).known;
          within = (got.inv v).within;
        };
        grown = got.grown;
      },
    )
      where
        built : Freelist P.Rep A
        built = record self' {
          mem = record {
            cells = put self'.mem.cells a (record { next = f got.node.next; value = v });
            allocated = self'.mem.allocated;
          };
        }

    -- With a free node, `construct_unsafe` takes the first,
    pub construct_unsafe-cons :
        (x : ℕ × A) (free : Cells A)
        → PoolInv al self (x ∷ free) owned
        → Returns
            (λ (a', self'). Constructed f v self free owned a' self')
            (construct_unsafe al may_allocate f v self)
    construct_unsafe-cons (a, w) free inv =
        let ((a', self'), e, got) = allocate_unsafe-cons al may_allocate self owned a w free inv in
        construct-Constructed free a' self' e (rw got.0 got.2)

    -- with none it asks the allocator, if it may,
    pub construct_unsafe-new :
        PoolInv al self [] owned
        → may_allocate ≡ true
        → self.mem.allocated < al.supply
        → Returns
            (λ (a', self'). Constructed f v self [] owned a' self')
            (construct_unsafe al may_allocate f v self)
    construct_unsafe-new inv caching left =
        let ((a', self'), e, got) =
          allocate_unsafe-new al may_allocate self owned inv caching left in
        construct-Constructed [] a' self' e got

    -- and else gives a null pointer.
    pub construct_unsafe-none :
        PoolInv al self [] owned
        → may_allocate ≡ false
        → construct_unsafe al may_allocate f v self ≡ ok (null, self)
    unfolding construct_unsafe
    construct_unsafe-none inv fixed = rw (allocate_unsafe-none al may_allocate self owned inv fixed)

    -- The allocator's exception passes through it.
    pub construct_unsafe-throws :
        PoolInv al self [] owned
        → may_allocate ≡ true
        → al.supply ≤ self.mem.allocated
        → construct_unsafe al may_allocate f v self ≡ fault
    unfolding construct_unsafe
    construct_unsafe-throws inv caching over =
        rw (allocate_unsafe-throws al may_allocate self owned inv caching over)

  -- A node given back is the first of the free ones.
  pub record Deallocated (self : Freelist P.Rep A) (a : ℕ) (v : A) (free owned : Cells A)
      (self' : Freelist P.Rep A) : Type 0 where
    pub same : (b : ℕ) → 0 < count b owned → self'.mem.cells b ≡ self.mem.cells b
    pub inv : PoolInv al self' ((a, v) ∷ free) owned
    pub kept : self'.mem.allocated ≡ self.mem.allocated

  pub deallocate_unsafe-Deallocated :
      (self : Freelist P.Rep A) (a : ℕ) (n : Node P.Rep A) (free owned : Cells A)
      → PoolInv al self free ((a, n.value) ∷ owned)
      → a ≢ null
      → a < P.ptr_limit
      → self.mem.cells a ≡ some n
      → Returns (Deallocated self a n.value free owned) (deallocate_unsafe P a self)
  unfolding deallocate_unsafe
  deallocate_unsafe-Deallocated self a n free owned inv ne small held = (
    back,
    rw
        (
          P.get_ptr-make a (P.get_tag self.pool) small,
          load-ok a n self.mem ne held,
          store-ok a n self.mem ne held,
        )
        refl,
    record {
      same = λ b there. ground (arith, inv.apart a);
      inv = record {
        chain = (P.get_ptr-make a (P.get_tag self.pool) small, ne, link, ground arith, rest);
        apart = λ b. ground (arith, inv.apart b);
        known = λ b there. inv.known b (ground arith);
        within = inv.within;
      };
      kept = refl;
    },
  )
    where
      link : P.Rep
      link = P.set_ptr n.next (P.get_ptr self.pool)

      pool_lt : P.get_ptr self.pool < P.ptr_limit
      pool_lt =
          Chain-lt P self.mem.cells (P.get_ptr self.pool) P.ptr_limit free inv.chain P.some_limit
            (λ b there. known-lt al self free ((a, n.value) ∷ owned) inv b (omega arith))

      back : Freelist P.Rep A
      back = record {
        mem = record self.mem { cells = put self.mem.cells a (record n { next = link }) };
        pool = P.make a (P.get_tag self.pool);
      }

      rest : Chain P back.mem.cells (P.get_ptr link) free
      rest = rw (P.get_ptr-set_ptr n.next (P.get_ptr self.pool) pool_lt) (
          Segment-frame P self.mem.cells back.mem.cells null (P.get_ptr self.pool) free inv.chain
            (λ b there. ground (arith, inv.apart a)))
