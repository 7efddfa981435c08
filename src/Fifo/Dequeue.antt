-- ===== src/Fifo/Dequeue.antt =====
-- `dequeue_unsafe` implements the dequeue of the specification, and `empty` its test.
use boost_lockfree.Prelude.{
  ℕ, suc, ◌+◌, ◌≤◌, ◌<◌, ◌≡◌, ◌≢◌, refl, ap, ◌∙◌, arith, Bool, true, false, ◌==◌, some, ok, List,
  [], ◌∷◌, ◌++◌, length, Returns, ◌↔◌,
}
use boost_lockfree.TaggedPtr.{TaggedPtrOps}
use boost_lockfree.Memory.{Node, null, Allocator}
use boost_lockfree.Memory.Chain.{Cells, count, values, Heap, Segment, Segment-frame, load-ok}
use boost_lockfree.Freelist.{Freelist, deallocate_unsafe}
use boost_lockfree.Freelist.Laws.{known-lt, not_null}
use boost_lockfree.Freelist.Nodes.{Deallocated, deallocate_unsafe-Deallocated}
use boost_lockfree.Stack.Pop.{destruct-eq}
use boost_lockfree.Fifo.{Fifo, dequeue_unsafe, dequeue_unsafe_loop, empty}
use boost_lockfree.Fifo.Spec
use boost_lockfree.Fifo.Spec.{View}
use boost_lockfree.Fifo.Invariant.{behind, count-append, FifoInv, Holds}

-- The node at the start of a chain that leads to `t`: one of the chain, or that at `t`.
pub record First {R A : Type 0} (cells : Heap R A) (p : ℕ) (xs : Cells A) : Type 0 where
  pub node : Node R A
  pub others : Cells A
  pub split : xs ≡ (p, node.value) ∷ others
  pub ne_null : p ≢ null
  pub held : cells p ≡ some node

pub Segment-First :
    (P : TaggedPtrOps) {A : Type 0} (cells : Heap P.Rep A) (t p : ℕ) (w : A) (r : P.Rep)
    (xs : Cells A)
    → Segment P cells t p xs
    → t ≢ null
    → cells t ≡ some (record { next = r; value = w })
    → First cells p (xs ++ (t, w) ∷ [])
Segment-First P cells t p w r [] e ne held = record {
  node = record { next = r; value = w };
  others = [];
  split = rw e refl;
  ne_null = rw e ne;
  held = rw e held;
}
Segment-First P cells t p w r ((a, v) ∷ xs) (e, ne', r', held', rest) ne held = record {
  node = record { next = r'; value = v };
  others = xs ++ (t, w) ∷ [];
  split = rw e refl;
  ne_null = rw e ne';
  held = rw e held';
}

module _ {P : TaggedPtrOps} {A : Type 0} (al : Allocator P A) (fuel : ℕ) (ret : A)
    (self : Fifo P.Rep A) (t : ℕ) (w : A) (free : Cells A) where
  -- The outcome of a dequeue, as the specification has it.
  abbrev Dequeued : View A → Bool × A × Fifo P.Rep A → Type 0
  Dequeued s out =
      (out.0 ≡ (Spec.dequeue ret s).0)
      × (out.1 ≡ (Spec.dequeue ret s).1)
      × Holds al out.2 (Spec.dequeue ret s).2
      × (out.2.list.mem.allocated ≡ self.list.mem.allocated)

  abbrev view_of : Cells A → View A
  view_of front = record { items = behind (values (front ++ (t, w) ∷ [])); spare = length free }

  dequeue-none :
      FifoInv al self [] t w free → dequeue_unsafe P (suc fuel) ret self ≡ ok (false, ret, self)
  unfolding dequeue_unsafe dequeue_unsafe_loop
  dequeue-none inv =
      rw
        (
          inv.before,
          inv.at_tail,
          load-ok t _ self.list.mem inv.tail_ne inv.held,
          inv.last_null,
          same_tail,
        )
        refl
    where
      same_tail : (t == t) ≡ true
      same_tail = ground arith

  Dequeued-of :
      (s s' : View A) (d : Bool) (x : A) (out : Bool × A × Fifo P.Rep A)
      → Spec.dequeue ret s ≡ (d, x, s')
      → out.0 ≡ d
      → out.1 ≡ x
      → Holds al out.2 s'
      → out.2.list.mem.allocated ≡ self.list.mem.allocated
      → Dequeued s out
  Dequeued-of s s' d x out e answer value holds kept = (rw e answer, rw e value, rw e holds, kept)

  spec-none : Spec.dequeue ret (view_of []) ≡ (false, ret, view_of [])
  unfolding Spec.dequeue
  spec-none = refl

  module _ (a : ℕ) (d : A) (front : Cells A) (inv : FifoInv al self ((a, d) ∷ front) t w free)
      (r : P.Rep) (top : P.get_ptr self.head ≡ a) (ne : a ≢ null)
      (held : self.list.mem.cells a ≡ some (record { next = r; value = d }))
      (first : First self.list.mem.cells (P.get_ptr r) (front ++ (t, w) ∷ []))
      (seg : Segment P self.list.mem.cells t (P.get_ptr r) front) where
    apart_tail : (a == P.get_ptr self.tail) ≡ false
    apart_tail =
        ground (arith, inv.at_tail, inv.pool.apart a, count-append a ((a, d) ∷ front) ((t, w) ∷ []))

    dequeue-run :
        (list : Freelist P.Rep A)
        → deallocate_unsafe P a self.list ≡ ok list
        → dequeue_unsafe P (suc fuel) ret self
          ≡ ok (
            true,
            first.node.value,
            record {
              list = list;
              head = P.make (P.get_ptr r) (P.get_tag self.head + 1);
              tail = self.tail;
            },
          )
    unfolding dequeue_unsafe dequeue_unsafe_loop
    dequeue-run list run =
        rw
          (
            top,
            load-ok a _ self.list.mem ne held,
            apart_tail,
            not_null al (P.get_ptr r) first.ne_null,
            load-ok (P.get_ptr r) first.node self.list.mem first.ne_null first.held,
            destruct-eq P a self.list,
            run,
          )
          refl

    -- The second node is one of the fifo's.
    next-owned : 0 < count (P.get_ptr r) (front ++ (t, w) ∷ [])
    next-owned = rw first.split (ground arith)

    next-lt : P.get_ptr r < P.ptr_limit
    next-lt =
        known-lt al self.list free ((a, d) ∷ front ++ (t, w) ∷ []) inv.pool (P.get_ptr r)
          (omega (arith, next-owned))

    top-lt : a < P.ptr_limit
    top-lt = known-lt al self.list free ((a, d) ∷ front ++ (t, w) ∷ []) inv.pool a (ground arith)

    front-owned : (b : ℕ) → count b front ≤ count b (front ++ (t, w) ∷ [])
    front-owned b = omega (arith, count-append b front ((t, w) ∷ []))

    tail-owned : 0 < count t (front ++ (t, w) ∷ [])
    tail-owned = ground (arith, count-append t front ((t, w) ∷ []))

    spec-cons :
        Spec.dequeue ret (view_of ((a, d) ∷ front))
        ≡ (true, first.node.value, record { items = values first.others; spare = length free + 1 })
    unfolding Spec.dequeue
    spec-cons = rw first.split refl

    view-split : values first.others ≡ behind (values (front ++ (t, w) ∷ []))
    view-split = rw first.split refl

    module _ (list : Freelist P.Rep A)
        (back : Deallocated al self.list a d free (front ++ (t, w) ∷ []) list) where
      abbrev left_over : Fifo P.Rep A
      left_over = record {
        list = list;
        head = P.make (P.get_ptr r) (P.get_tag self.head + 1);
        tail = self.tail;
      }

      left_over-FifoInv : FifoInv al left_over front t w ((a, d) ∷ free)
      left_over-FifoInv = record {
        before = rw (P.get_ptr-make (P.get_ptr r) (P.get_tag self.head + 1) next-lt) (
            Segment-frame P self.list.mem.cells list.mem.cells t (P.get_ptr r) front seg
              (λ b h. back.same b (omega (arith, front-owned b))));
        at_tail = inv.at_tail;
        tail_ne = inv.tail_ne;
        last = inv.last;
        held = back.same t tail-owned ∙ inv.held;
        last_null = inv.last_null;
        pool = back.inv;
      }

      one_more : length free + 1 ≡ suc (length free)
      one_more = omega arith

      left_over-Holds :
          Holds al left_over (record { items = values first.others; spare = length free + 1 })
      left_over-Holds = record {
        front = front;
        tail_at = t;
        tail_value = w;
        free = (a, d) ∷ free;
        inv = left_over-FifoInv;
        view =
            ap (λ (xs : List A). record { items = xs; spare = length free + 1 }) view-split
            ∙ ap (λ (k : ℕ). record { items = behind (values (front ++ (t, w) ∷ [])); spare = k })
                one_more;
      }

    dequeue-cons :
        Returns (Dequeued (view_of ((a, d) ∷ front))) (dequeue_unsafe P (suc fuel) ret self)
    dequeue-cons =
        let (list, run, back) =
          deallocate_unsafe-Deallocated al self.list a (record { next = r; value = d }) free
            (front ++ (t, w) ∷ []) inv.pool ne top-lt held in
        (
          (true, first.node.value, left_over list back),
          dequeue-run list run,
          Dequeued-of _ _ true first.node.value _ spec-cons refl refl (left_over-Holds list back)
              back.kept,
        )

  dequeue-at :
      (front : Cells A)
      → FifoInv al self front t w free
      → Returns (Dequeued (view_of front)) (dequeue_unsafe P (suc fuel) ret self)
  dequeue-at [] inv = (
    (false, ret, self),
    dequeue-none inv,
    Dequeued-of _ _ false ret _ spec-none refl refl
        (record { front = []; tail_at = t; tail_value = w; free = free; inv = inv; view = refl })
        refl,
  )
  dequeue-at ((a, d) ∷ front) inv = taken_off inv.before
    where
      taken_off :
          Segment P self.list.mem.cells t (P.get_ptr self.head) ((a, d) ∷ front)
          → Returns (Dequeued (view_of ((a, d) ∷ front))) (dequeue_unsafe P (suc fuel) ret self)
      taken_off (e, ne, r, held, seg) =
          dequeue-cons a d front inv r e ne held
            (Segment-First P self.list.mem.cells t (P.get_ptr r) w inv.last front seg inv.tail_ne
              inv.held)
            seg

module _ {P : TaggedPtrOps} {A : Type 0} (al : Allocator P A) where
  -- `dequeue_unsafe` does what the specification says, in one round of its loop: on an empty fifo it
  -- returns false and changes nothing, else it takes the oldest value off and gives a node to the
  -- pool. It never calls the allocator.
  pub dequeue_unsafe_refines :
      (fuel : ℕ) (ret : A) (self : Fifo P.Rep A) (s : View A)
      → Holds al self s
      → Returns
          (λ (done, x, self').
            (done ≡ (Spec.dequeue ret s).0)
            × (x ≡ (Spec.dequeue ret s).1)
            × Holds al self' (Spec.dequeue ret s).2
            × (self'.list.mem.allocated ≡ self.list.mem.allocated))
          (dequeue_unsafe P (suc fuel) ret self)
  dequeue_unsafe_refines fuel ret self s h =
      rw h.view (dequeue-at al fuel ret self h.tail_at h.tail_value h.free h.front h.inv)

  pub some_value : (t : ℕ) (w : A) (xs : Cells A) → 0 < length (values (xs ++ (t, w) ∷ []))
  some_value t w [] = omega arith
  some_value t w ((a, d) ∷ xs) = omega arith

  empty-front :
      (self : Fifo P.Rep A) (front : Cells A) (t : ℕ) (w : A) (free : Cells A)
      → FifoInv al self front t w free
      → (empty P self ≡ true) ↔ (behind (values (front ++ (t, w) ∷ [])) ≡ [])
  unfolding empty
  empty-front self [] t w free inv = (λ e. refl, λ e. ground (arith, inv.before, inv.at_tail))
  empty-front self ((a, d) ∷ front) t w free inv = (
    λ e. absurd (
        ground (
          arith,
          inv.before.0,
          inv.at_tail,
          inv.pool.apart a,
          count-append a ((a, d) ∷ front) ((t, w) ∷ []),
        )),
    λ e. absurd (omega (arith, some_value t w front, ap length e)),
  )

  -- `empty` is true exactly when the fifo holds no value.
  pub fifo_empty_iff :
      (self : Fifo P.Rep A) (s : View A) → Holds al self s → (empty P self ≡ true) ↔ (s.items ≡ [])
  fifo_empty_iff self s h = rw h.view (empty-front self h.front h.tail_at h.tail_value h.free h.inv)
