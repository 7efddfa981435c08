-- ===== src/Fifo/Agree.antt =====
-- The thread-safe `enqueue` and `dequeue`, when no other thread interferes, do what the unsafe
-- operations do, however often their `compare_exchange_weak` fails for no reason.
use boost_lockfree.Prelude.{
  ℕ, suc, ◌+◌, ◌<◌, ◌≡◌, ◌≢◌, refl, sym, ◌∙◌, arith, Bool, true, false, some, ok, List, [], ◌∷◌,
  ◌++◌, Bool-cases, inl, inr,
}
use boost_lockfree.TaggedPtr.{TaggedPtrOps}
use boost_lockfree.Memory.{Node, null, Allocator, put}
use boost_lockfree.Memory.Chain.{Cells, count, load-ok, store-ok}
use boost_lockfree.Freelist.{Freelist, construct_unsafe}
use boost_lockfree.Freelist.Laws.{not_null}
use boost_lockfree.Freelist.Nodes.{
  Constructed, construct_unsafe-cons, construct_unsafe-new, construct_unsafe-none,
}
use boost_lockfree.Freelist.Agree.{cas_spurious, cas_same, construct-agree}
use boost_lockfree.Fifo.{
  Fifo, node_next, compare_exchange_strong, enqueue_loop, enqueue, enqueue_unsafe,
  enqueue_unsafe_loop,
}
use boost_lockfree.Fifo.Spec.{View}
use boost_lockfree.Fifo.Invariant.{count-append, FifoInv, Holds}

pub strong_same : (P : TaggedPtrOps) (d c : P.Rep) → compare_exchange_strong P c d c ≡ d
unfolding compare_exchange_strong
strong_same P d c = rw ((P.equal_iff c c).1 refl)

module _ (P : TaggedPtrOps) {A : Type 0} (n t : ℕ) (self : Fifo P.Rep A) (node : Node P.Rep A)
    (at : P.get_ptr self.tail ≡ t) (ne : t ≢ null) (held : self.list.mem.cells t ≡ some node)
    (last_null : P.get_ptr node.next ≡ null) where
  -- The fifo with the node `n` behind the last one.
  abbrev linked : Fifo P.Rep A
  linked = record {
    list = record {
      mem = record {
        cells =
            put self.list.mem.cells t (record node { next = P.make n (P.get_tag node.next + 1) });
        allocated = self.list.mem.allocated;
      };
      pool = self.list.pool;
    };
    head = self.head;
    tail = P.make n (P.get_tag self.tail + 1);
  }

  enqueue_loop-linked : (failures : List Bool) → enqueue_loop P failures n self ≡ ok (true, linked)
  unfolding enqueue_loop compare_exchange_strong
  enqueue_loop-linked [] =
      rw
        (
          at,
          load-ok t node self.list.mem ne held,
          store-ok t node self.list.mem ne held,
          last_null,
          cas_same P (P.make n (P.get_tag node.next + 1)) node.next,
          (P.equal_iff self.tail self.tail).1 refl,
        )
        refl
  enqueue_loop-linked (false ∷ more) =
      rw
        (
          at,
          load-ok t node self.list.mem ne held,
          store-ok t node self.list.mem ne held,
          last_null,
          cas_same P (P.make n (P.get_tag node.next + 1)) node.next,
          (P.equal_iff self.tail self.tail).1 refl,
        )
        refl
  enqueue_loop-linked (true ∷ more) =
      rw
        (
          at,
          load-ok t node self.list.mem ne held,
          last_null,
          cas_spurious P node.next (P.make n (P.get_tag node.next + 1)) node.next,
          (P.equal_iff self.tail self.tail).1 refl,
        )
        (enqueue_loop-linked more)

  enqueue_unsafe_loop-linked :
      (fuel : ℕ) → enqueue_unsafe_loop P (suc fuel) n self ≡ ok (true, linked)
  unfolding enqueue_unsafe_loop
  enqueue_unsafe_loop-linked fuel =
      rw
        (at, load-ok t node self.list.mem ne held, store-ok t node self.list.mem ne held, last_null)
        refl

module _ {P : TaggedPtrOps} {A : Type 0} (al : Allocator P A) (may_allocate : Bool)
    (failures got : List Bool) (fuel : ℕ) (v : A) (self : Fifo P.Rep A) where
  -- Both put the same node behind the last one.
  agree-Constructed :
      (front free free' : Cells A) (t n : ℕ) (w : A) (list : Freelist P.Rep A)
      → FifoInv al self front t w free
      → construct_unsafe al may_allocate (node_next P) v self.list ≡ ok (n, list)
      → Constructed al (node_next P) v self.list free' (front ++ (t, w) ∷ []) n list
      → enqueue al may_allocate failures got v self
        ≡ enqueue_unsafe al may_allocate (suc fuel) v self
  unfolding enqueue enqueue_unsafe
  agree-Constructed front free free' t n w list inv e node =
      let tail-owned : 0 < count t (front ++ (t, w) ∷ []) =
        ground (arith, count-append t front ((t, w) ∷ [])) in
      let there = node.same t tail-owned ∙ inv.held in
      let after = record self { list = list } in
      rw
        (
          construct-agree al may_allocate got (node_next P) v self.list,
          e,
          not_null al n node.ne_null,
        )
        (enqueue_loop-linked P n t after _ inv.at_tail inv.tail_ne there inv.last_null failures
          ∙ sym (
              enqueue_unsafe_loop-linked P n t after _ inv.at_tail inv.tail_ne there inv.last_null
                fuel))

  agree-none :
      construct_unsafe al may_allocate (node_next P) v self.list ≡ ok (null, self.list)
      → enqueue al may_allocate failures got v self
        ≡ enqueue_unsafe al may_allocate (suc fuel) v self
  unfolding enqueue enqueue_unsafe
  agree-none e = rw (construct-agree al may_allocate got (node_next P) v self.list, e) refl

  agree-at :
      (front free : Cells A) (t : ℕ) (w : A)
      → FifoInv al self front t w free
      → self.list.mem.allocated < al.supply
      → enqueue al may_allocate failures got v self
        ≡ enqueue_unsafe al may_allocate (suc fuel) v self
  agree-at front [] t w inv left = elim (Bool-cases may_allocate) [
    | inl caching ↦
        let ((n, list), e, node) =
          construct_unsafe-new al may_allocate (node_next P) v self.list (front ++ (t, w) ∷ [])
            inv.pool caching left in
        agree-Constructed front [] [] t n w list inv e node
    | inr fixed ↦ agree-none (
        construct_unsafe-none al may_allocate (node_next P) v self.list (front ++ (t, w) ∷ [])
          inv.pool fixed)
  ]
  agree-at front (x ∷ free) t w inv left =
      let ((n, list), e, node) =
        construct_unsafe-cons al may_allocate (node_next P) v self.list (front ++ (t, w) ∷ []) x
          free inv.pool in
      agree-Constructed front (x ∷ free) free t n w list inv e node

  -- `enqueue` does what `enqueue_unsafe` does, on every fifo that is in order, however often calls of
  -- `compare_exchange_weak` fail for no reason. The allocator has storage left.
  pub enqueue-agree :
      (s : View A)
      → Holds al self s
      → self.list.mem.allocated < al.supply
      → enqueue al may_allocate failures got v self
        ≡ enqueue_unsafe al may_allocate (suc fuel) v self
  enqueue-agree s h left = agree-at h.front h.free h.tail_at h.tail_value h.inv left
