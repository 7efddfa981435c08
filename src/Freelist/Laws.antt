-- ===== src/Freelist/Laws.antt =====
-- What the operations of the freelist do to the chain of free nodes, and that they leave the nodes
-- that the client owns alone.
use native.Mathlib.Decide.{ℕ_discrete}
use boost_lockfree.Prelude.{
  ℕ, zero, suc, ◌+◌, ◌≤◌, ◌<◌, ◌≡◌, ◌≢◌, refl, arith, Bool, true, false, ◌==◌, ltb, some, ok, fault,
  [], ◌∷◌, Returns, inl, inr, ◌⊎◌,
}
use boost_lockfree.TaggedPtr.{TaggedPtrOps}
use boost_lockfree.Memory.{Memory, Node, null, Allocator, load, store, put, set_next, set_node}
use boost_lockfree.Memory as Heap
use boost_lockfree.Memory.Chain.{Cells, count, Chain, Chain-lt, Segment-frame, load-ok}
use boost_lockfree.Freelist.{Freelist, allocate_unsafe}

module _ {P : TaggedPtrOps} {A : Type 0} (al : Allocator P A) where
  -- The pool holds the chain `free`; the client owns `owned`; no node stands twice in them, and
  -- each came from the allocator.
  pub record PoolInv (self : Freelist P.Rep A) (free owned : Cells A) : Type 0 where
    pub chain : Chain P self.mem.cells (P.get_ptr self.pool) free
    pub apart : (a : ℕ) → count a free + count a owned ≤ 1
    pub known :
        (a : ℕ)
        → 0 < count a free + count a owned
        → (i : ℕ) × (i < self.mem.allocated) × (a ≡ al.addr i)
    pub within : self.mem.allocated ≤ al.supply

  pub not_null : (a : ℕ) → a ≢ null → (a == null) ≡ false
  not_null a ne = ground arith

  -- The next address of the allocator stands in neither list.
  fresh-count :
      (self : Freelist P.Rep A) (free owned : Cells A)
      → PoolInv self free owned
      → self.mem.allocated < al.supply
      → count (al.addr self.mem.allocated) free + count (al.addr self.mem.allocated) owned ≡ 0
  fresh-count self free owned inv left = elim (dec-pos n) [
    | inl none_there ↦ none_there
    | inr there ↦
        let (i, below, same) = inv.known (al.addr self.mem.allocated) there in
        absurd (omega (arith, al.addr-injective self.mem.allocated i left (omega arith) same))
  ]
    where
      n : ℕ
      n = count (al.addr self.mem.allocated) free + count (al.addr self.mem.allocated) owned

      dec-pos : (k : ℕ) → (k ≡ 0) ⊎ (0 < k)
      dec-pos zero = inl refl
      dec-pos (suc k) = inr (omega arith)

  pub known-lt :
      (self : Freelist P.Rep A) (free owned : Cells A)
      → PoolInv self free owned
      → (a : ℕ) → 0 < count a free + count a owned
      → a < P.ptr_limit
  known-lt self free owned inv a there =
      let (i, below, same) = inv.known a there in rw same (al.addr-lt i (omega (arith, inv.within)))

  -- What the client gets from `allocate`: a node of its own, with anything in it.
  pub record Allocated (self : Freelist P.Rep A) (free' owned : Cells A) (a : ℕ)
      (self' : Freelist P.Rep A) : Type 0 where
    pub ne_null : a ≢ null
    pub lt_limit : a < P.ptr_limit
    pub unowned : count a owned ≡ 0
    pub node : Node P.Rep A
    pub holds : self'.mem.cells a ≡ some node
    pub same : (b : ℕ) → 0 < count b owned → self'.mem.cells b ≡ self.mem.cells b
    pub inv : (v : A) → PoolInv self' free' ((a, v) ∷ owned)
    pub grown : self'.mem.allocated ≤ self.mem.allocated + 1

  -- The allocator gives a node that stands in neither list.
  pub allocate_fresh :
      (self : Freelist P.Rep A) (owned free : Cells A)
      → PoolInv self free owned
      → self.mem.allocated < al.supply
      → Returns
          (λ (a, mem).
            Allocated self free owned a (record self { mem = mem })
            × (mem.allocated ≡ self.mem.allocated + 1))
          (Heap.allocate al self.mem)
  unfolding Heap.allocate
  allocate_fresh self owned free inv left = (
    (
      al.addr self.mem.allocated,
      record {
        cells = put self.mem.cells (al.addr self.mem.allocated) (al.garbage self.mem.allocated);
        allocated = self.mem.allocated + 1;
      },
    ),
    rw ltb-true refl,
    (
      record {
        ne_null = al.addr-ne-null self.mem.allocated left;
        lt_limit = al.addr-lt self.mem.allocated left;
        unowned = omega (arith, unused);
        node = al.garbage self.mem.allocated;
        holds = ground arith;
        same = λ b there. ground (arith, unused);
        inv = λ w. record {
          chain =
              Segment-frame P self.mem.cells _ null (P.get_ptr self.pool) free inv.chain
                (λ b there. ground (arith, unused));
          apart = λ b. ground (arith, inv.apart b, unused);
          known = λ b there. elim (dec_eq b (al.addr self.mem.allocated)) [
            | inl new ↦ (self.mem.allocated, omega arith, new)
            | inr old ↦ let (i, below, from) = inv.known b (ground arith) in (i, omega arith, from)
          ];
          within = omega arith;
        };
        grown = omega arith;
      },
      refl,
    ),
  )
    where
      unused :
          count (al.addr self.mem.allocated) free + count (al.addr self.mem.allocated) owned ≡ 0
      unused = fresh-count self free owned inv left

      ltb-true : ltb self.mem.allocated al.supply ≡ true
      ltb-true = ground arith

      dec_eq : (b c : ℕ) → (b ≡ c) ⊎ (b ≢ c)
      dec_eq b c = elim (ℕ_discrete b c) [ yes e ↦ inl e | no ne ↦ inr ne ]

  module _ (may_allocate : Bool) (self : Freelist P.Rep A) (owned : Cells A) where
    -- A free node is taken from the head of the chain.
    pub allocate_unsafe-cons :
        (a : ℕ) (v : A) (free : Cells A)
        → PoolInv self ((a, v) ∷ free) owned
        → Returns
            (λ (a', self'). (a' ≡ a) × (self'.mem ≡ self.mem) × Allocated self free owned a self')
            (allocate_unsafe al may_allocate self)
    unfolding allocate_unsafe
    allocate_unsafe-cons a v free inv = taken inv.chain
      where
        taken :
            Chain P self.mem.cells (P.get_ptr self.pool) ((a, v) ∷ free)
            → Returns
                (λ (a', self').
                  (a' ≡ a) × (self'.mem ≡ self.mem) × Allocated self free owned a self')
                (allocate_unsafe al may_allocate self)
        taken (e, ne, r, held, rest) =
            let next_lt : P.get_ptr r < P.ptr_limit =
              Chain-lt P self.mem.cells (P.get_ptr r) P.ptr_limit free rest P.some_limit
                (λ b there. known-lt self ((a, v) ∷ free) owned inv b (ground arith)) in
            let next_ptr = P.get_ptr-make (P.get_ptr r) (P.get_tag self.pool + 1) next_lt in
            (
              (a, record self { pool = P.make (P.get_ptr r) (P.get_tag self.pool + 1) }),
              rw (e, not_null a ne, load-ok a _ self.mem ne held) refl,
              (
                refl,
                refl,
                record {
                  ne_null = ne;
                  lt_limit = known-lt self ((a, v) ∷ free) owned inv a (ground arith);
                  unowned = ground (arith, inv.apart a);
                  node = record { next = r; value = v };
                  holds = held;
                  same = λ b there. refl;
                  inv = λ w. record {
                    chain = rw next_ptr rest;
                    apart = λ b. ground (arith, inv.apart b);
                    known = λ b there. inv.known b (ground arith);
                    within = inv.within;
                  };
                  grown = omega arith;
                },
              ),
            )

    -- An empty pool that may not allocate gives a null pointer and stays as it is.
    pub allocate_unsafe-none :
        PoolInv self [] owned
        → may_allocate ≡ false
        → allocate_unsafe al may_allocate self ≡ ok (null, self)
    unfolding allocate_unsafe
    allocate_unsafe-none inv fixed = rw (inv.chain, fixed)

    -- One that may allocate gives a node from the allocator,
    pub allocate_unsafe-new :
        PoolInv self [] owned
        → may_allocate ≡ true
        → self.mem.allocated < al.supply
        → Returns
            (λ (a', self'). Allocated self [] owned a' self')
            (allocate_unsafe al may_allocate self)
    unfolding allocate_unsafe
    allocate_unsafe-new inv caching left =
        let ((a, mem), e, got) = allocate_fresh self owned [] inv left in
        ((a, record self { mem = mem }), rw (inv.chain, caching, e) refl, got.0)

    -- or, when there is no storage left, leaves by the exception of the allocator.
    pub allocate_unsafe-throws :
        PoolInv self [] owned
        → may_allocate ≡ true
        → al.supply ≤ self.mem.allocated
        → allocate_unsafe al may_allocate self ≡ fault
    unfolding allocate_unsafe Heap.allocate
    allocate_unsafe-throws inv caching over = rw (inv.chain, caching, ltb-false) refl
      where
        ltb-false : ltb self.mem.allocated al.supply ≡ false
        ltb-false = ground arith
