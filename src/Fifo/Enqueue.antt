-- ===== src/Fifo/Enqueue.antt =====
-- `enqueue_unsafe` implements the enqueue of the specification.
use boost_lockfree.Prelude.{
  ℕ, suc, ◌+◌, ◌<◌, ◌≤◌, ◌≡◌, ◌≢◌, refl, sym, ap, ◌∙◌, arith, Bool, true, false, some, ok, List, [],
  ◌∷◌, ◌++◌, length, Returns, Bool-cases, inl, inr,
}
use boost_lockfree.TaggedPtr.{TaggedPtrOps}
use boost_lockfree.Memory.{Node, null, Allocator, put}
use boost_lockfree.Memory.Chain.{Cells, count, values, Segment-frame, load-ok, store-ok}
use boost_lockfree.Freelist.{Freelist, construct_unsafe}
use boost_lockfree.Freelist.Laws.{not_null}
use boost_lockfree.Freelist.Nodes.{
  Constructed, construct_unsafe-cons, construct_unsafe-new, construct_unsafe-none,
}
use boost_lockfree.Fifo.{Fifo, node_next, enqueue_unsafe, enqueue_unsafe_loop}
use boost_lockfree.Fifo.Spec
use boost_lockfree.Fifo.Spec.{View}
use boost_lockfree.Fifo.Invariant.{
  behind, count-append, values-append, Segment-snoc, FifoInv, Holds,
}

module _ {P : TaggedPtrOps} {A : Type 0} (al : Allocator P A) (may_allocate : Bool) (fuel : ℕ)
    (v : A) (self : Fifo P.Rep A) (front : Cells A) (t : ℕ) (w : A) where
  abbrev owned : Cells A
  owned = front ++ (t, w) ∷ []

  -- The tail is one of the fifo's nodes.
  tail-owned : 0 < count t owned
  tail-owned = omega (arith, count-append t front ((t, w) ∷ []), one)
    where
      one : count t ((t, w) ∷ []) ≡ 1
      one = ground arith

  module _ (free free' : Cells A) (n : ℕ) (list : Freelist P.Rep A)
      (inv : FifoInv al self front t w free)
      (got : Constructed al (node_next P) v self.list free' owned n list) where
    abbrev linked : Node P.Rep A
    linked = record { next = P.make n (P.get_tag inv.last + 1); value = w }

    abbrev enqueued : Fifo P.Rep A
    enqueued = record {
      list = record {
        mem = record { cells = put list.mem.cells t linked; allocated = list.mem.allocated };
        pool = list.pool;
      };
      head = self.head;
      tail = P.make n (P.get_tag self.tail + 1);
    }

    there : list.mem.cells t ≡ some (record { next = inv.last; value = w })
    there = got.same t tail-owned ∙ inv.held

    enqueue-Constructed :
        construct_unsafe al may_allocate (node_next P) v self.list ≡ ok (n, list)
        → enqueue_unsafe al may_allocate (suc fuel) v self ≡ ok (true, enqueued)
    unfolding enqueue_unsafe enqueue_unsafe_loop
    enqueue-Constructed e =
        rw
          (
            e,
            not_null al n got.ne_null,
            inv.at_tail,
            load-ok t _ list.mem inv.tail_ne there,
            inv.last_null,
            store-ok t _ list.mem inv.tail_ne there,
          )
          refl

    -- Where the new node and the old tail do not stand.
    count-owned : (b : ℕ) → count b owned ≡ count b front + count b ((t, w) ∷ [])
    count-owned b = count-append b front ((t, w) ∷ [])

    count-new : (b : ℕ) → count b (owned ++ (n, v) ∷ []) ≡ count b ((n, v) ∷ owned)
    count-new b = omega (arith, count-append b owned ((n, v) ∷ []))

    other_node : (b : ℕ) → b ≢ t → enqueued.list.mem.cells b ≡ list.mem.cells b
    other_node b apart = ground arith

    front_apart : (b : ℕ) → 0 < count b front → b ≢ t
    front_apart b h e = ground (arith, count-owned t, inv.pool.apart t)

    free_apart : (b : ℕ) → 0 < count b free' → b ≢ t
    free_apart b h e = ground (arith, tail-owned, got.inv.apart t)

    new_apart : n ≢ t
    new_apart e = ground (arith, tail-owned, got.unowned)

    enqueued-FifoInv : FifoInv al enqueued owned n v free'
    unfolding node_next
    enqueued-FifoInv = record {
      before =
          Segment-snoc P enqueued.list.mem.cells t n (P.get_ptr self.head) w linked.next front
            (Segment-frame P self.list.mem.cells enqueued.list.mem.cells t (P.get_ptr self.head)
              front inv.before
              (λ b h. other_node b (front_apart b h) ∙ got.same b (omega (arith, count-owned b))))
            inv.tail_ne (ground arith) (P.get_ptr-make n _ got.lt_limit);
      at_tail = P.get_ptr-make n _ got.lt_limit;
      tail_ne = got.ne_null;
      last = node_next P got.link;
      held = other_node n new_apart ∙ got.holds;
      last_null = P.get_ptr-make null _ P.some_limit;
      pool = record {
        chain =
            Segment-frame P list.mem.cells enqueued.list.mem.cells null (P.get_ptr list.pool) free'
              got.inv.chain (λ b h. other_node b (free_apart b h));
        apart = λ b. rw (count-new b) (got.inv.apart b);
        known = λ b h. got.inv.known b (rw (← count-new b) h);
        within = got.inv.within;
      };
    }

  abbrev view_of : Cells A → View A
  view_of free = record { items = behind (values owned); spare = length free }

  -- The new value is behind the dummy, whatever stood there.
  items-new :
      (front : Cells A) (n : ℕ)
      → behind (values ((front ++ (t, w) ∷ []) ++ (n, v) ∷ []))
        ≡ behind (values (front ++ (t, w) ∷ [])) ++ v ∷ []
  items-new [] n = refl
  items-new ((a, x) ∷ front) n = values-append (front ++ (t, w) ∷ []) ((n, v) ∷ [])

  spec-cons :
      (x : ℕ × A) (free : Cells A)
      → Spec.enqueue may_allocate v (view_of (x ∷ free))
        ≡ (true, record { items = behind (values owned) ++ v ∷ []; spare = length free })
  unfolding Spec.enqueue
  spec-cons x free = ground arith

  spec-new :
      may_allocate ≡ true
      → Spec.enqueue may_allocate v (view_of [])
        ≡ (true, record { items = behind (values owned) ++ v ∷ []; spare = 0 })
  unfolding Spec.enqueue
  spec-new caching = rw caching

  spec-none : may_allocate ≡ false → Spec.enqueue may_allocate v (view_of []) ≡ (false, view_of [])
  unfolding Spec.enqueue
  spec-none fixed = rw fixed

  enqueue-none :
      FifoInv al self front t w []
      → may_allocate ≡ false
      → enqueue_unsafe al may_allocate (suc fuel) v self ≡ ok (false, self)
  unfolding enqueue_unsafe
  enqueue-none inv fixed =
      rw (construct_unsafe-none al may_allocate (node_next P) v self.list owned inv.pool fixed)

  -- The outcome of an enqueue, as the specification has it.
  abbrev Enqueued : View A → Bool × Fifo P.Rep A → Type 0
  Enqueued s out =
      (out.0 ≡ (Spec.enqueue may_allocate v s).0)
      × Holds al out.1 (Spec.enqueue may_allocate v s).1
      × (out.1.list.mem.allocated ≤ self.list.mem.allocated + 1)

  Enqueued-of :
      (s s' : View A) (d : Bool) (out : Bool × Fifo P.Rep A)
      → Spec.enqueue may_allocate v s ≡ (d, s')
      → out.0 ≡ d
      → Holds al out.1 s'
      → out.1.list.mem.allocated ≤ self.list.mem.allocated + 1
      → Enqueued s out
  Enqueued-of s s' d out e answer holds grown = (rw e answer, rw e holds, grown)

  enqueued-Holds :
      (free free' : Cells A) (n : ℕ) (list : Freelist P.Rep A)
      (inv : FifoInv al self front t w free)
      (got : Constructed al (node_next P) v self.list free' owned n list)
      → Holds al
          (enqueued free free' n list inv got)
          (record { items = behind (values owned) ++ v ∷ []; spare = length free' })
  enqueued-Holds free free' n list inv got = record {
    front = owned;
    tail_at = n;
    tail_value = v;
    free = free';
    inv = enqueued-FifoInv free free' n list inv got;
    view =
        ap (λ (xs : List A). record { items = xs; spare = length free' }) (sym (items-new front n));
  }

  enqueue-at :
      (free : Cells A)
      → FifoInv al self front t w free
      → self.list.mem.allocated < al.supply
      → Returns (Enqueued (view_of free)) (enqueue_unsafe al may_allocate (suc fuel) v self)
  enqueue-at [] inv left = elim (Bool-cases may_allocate) [
    | inl caching ↦
        let ((n, list), e, got) =
          construct_unsafe-new al may_allocate (node_next P) v self.list owned inv.pool caching
            left in
        (
          (true, enqueued [] [] n list inv got),
          enqueue-Constructed [] [] n list inv got e,
          Enqueued-of _ _ true _ (spec-new caching) refl (enqueued-Holds [] [] n list inv got)
              got.grown,
        )
    | inr fixed ↦ (
      (false, self),
      enqueue-none inv fixed,
      Enqueued-of _ _ false _ (spec-none fixed) refl
          (record { front = front; tail_at = t; tail_value = w; free = []; inv = inv; view = refl })
          (omega arith),
    )
  ]
  enqueue-at (x ∷ free) inv left =
      let ((n, list), e, got) =
        construct_unsafe-cons al may_allocate (node_next P) v self.list owned x free inv.pool in
      (
        (true, enqueued (x ∷ free) free n list inv got),
        enqueue-Constructed (x ∷ free) free n list inv got e,
        Enqueued-of _ _ true _ (spec-cons x free) refl
            (enqueued-Holds (x ∷ free) free n list inv got) got.grown,
      )

module _ {P : TaggedPtrOps} {A : Type 0} (al : Allocator P A) where
  -- `enqueue_unsafe` does what the specification says, in one round of its loop: with a free node,
  -- or when it may allocate, it puts the value behind the others and returns true, else it returns
  -- false and the fifo holds what it held. It calls the allocator at most once. The allocator has
  -- storage left.
  pub enqueue_unsafe_refines :
      (may_allocate : Bool) (fuel : ℕ) (v : A) (self : Fifo P.Rep A) (s : View A)
      → Holds al self s
      → self.list.mem.allocated < al.supply
      → Returns
          (λ (done, self').
            (done ≡ (Spec.enqueue may_allocate v s).0)
            × Holds al self' (Spec.enqueue may_allocate v s).1
            × (self'.list.mem.allocated ≤ self.list.mem.allocated + 1))
          (enqueue_unsafe al may_allocate (suc fuel) v self)
  enqueue_unsafe_refines may_allocate fuel v self s h left =
      rw h.view
        (enqueue-at al may_allocate fuel v self h.front h.tail_at h.tail_value h.free h.inv left)
