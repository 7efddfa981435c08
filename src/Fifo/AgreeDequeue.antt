-- ===== src/Fifo/AgreeDequeue.antt =====
-- The thread-safe `dequeue`, when no other thread interferes, does what the unsafe one does, however
-- often its `compare_exchange_weak` fails for no reason.
use boost_lockfree.Prelude.{
  ℕ, suc, ◌+◌, ◌<◌, ◌≡◌, ◌≢◌, refl, sym, ◌∙◌, arith, Bool, true, false, ◌==◌, some, Run, ok,
  out_of_fuel, ◌>>=◌, List, [], ◌∷◌, ◌++◌,
}
use boost_lockfree.TaggedPtr.{TaggedPtrOps}
use boost_lockfree.Memory.{Node, null, Allocator}
use boost_lockfree.Memory.Chain.{Cells, load-ok, Segment}
use boost_lockfree.Freelist.{destruct, deallocate_unsafe}
use boost_lockfree.Freelist.Laws.{not_null, known-lt}
use boost_lockfree.Freelist.Agree.{cas_spurious, cas_same, deallocate-agree}
use boost_lockfree.Stack.Pop.{destruct-eq}
use boost_lockfree.Fifo.{
  Fifo, dequeue_loop, dequeue_round, dequeue, dequeue_unsafe, dequeue_unsafe_loop,
}
use boost_lockfree.Fifo.Spec.{View}
use boost_lockfree.Fifo.Invariant.{count-append, FifoInv, Holds}
use boost_lockfree.Fifo.Dequeue.{Segment-First}

module _ {P : TaggedPtrOps} {A : Type 0} (al : Allocator P A) (freed : List Bool)
    (self : Fifo P.Rep A) where
  -- Both find an empty fifo.
  module _ (t : ℕ) (node : Node P.Rep A) (top : P.get_ptr self.head ≡ t)
      (at : P.get_ptr self.tail ≡ t) (ne : t ≢ null) (held : self.list.mem.cells t ≡ some node)
      (last_null : P.get_ptr node.next ≡ null) where
    same_tail : (t == t) ≡ true
    same_tail = ground arith

    round-none :
        (again : A → Fifo P.Rep A → Run (Bool × A × Fifo P.Rep A)) (spurious : Bool) (ret : A)
        → dequeue_round P again spurious freed ret self ≡ ok (false, ret, self)
    unfolding dequeue_round
    round-none again spurious ret =
        rw
          (
            top,
            at,
            load-ok t node self.list.mem ne held,
            last_null,
            same_tail,
            (P.equal_iff self.head self.head).1 refl,
          )
          refl

    agree-none :
        (failures : List Bool) (fuel : ℕ) (ret : A)
        → dequeue P failures freed ret self ≡ dequeue_unsafe P (suc fuel) ret self
    unfolding dequeue dequeue_loop dequeue_unsafe dequeue_unsafe_loop
    agree-none [] fuel ret =
        round-none (λ _ _. out_of_fuel) false ret
        ∙ rw (top, at, load-ok t node self.list.mem ne held, last_null, same_tail) refl
    agree-none (b ∷ more) fuel ret =
        round-none (dequeue_loop P more freed) b ret
        ∙ rw (top, at, load-ok t node self.list.mem ne held, last_null, same_tail) refl

  -- Both take the node `a` off, behind which stands `first`.
  module _ (a : ℕ) (node : Node P.Rep A) (first : Node P.Rep A) (top : P.get_ptr self.head ≡ a)
      (ne : a ≢ null) (small : a < P.ptr_limit) (held : self.list.mem.cells a ≡ some node)
      (apart : (a == P.get_ptr self.tail) ≡ false) (next_ne : P.get_ptr node.next ≢ null)
      (next_held : self.list.mem.cells (P.get_ptr node.next) ≡ some first) where
    abbrev taken : Run (Bool × A × Fifo P.Rep A)
    taken = deallocate_unsafe P a self.list >>= λ list. ok (
      true,
      first.value,
      record {
        list = list;
        head = P.make (P.get_ptr node.next) (P.get_tag self.head + 1);
        tail = self.tail;
      },
    )

    freed-agree : destruct P freed a self.list ≡ deallocate_unsafe P a self.list
    unfolding destruct
    freed-agree = deallocate-agree P a ne small freed self.list node held

    round-taken :
        (again : A → Fifo P.Rep A → Run (Bool × A × Fifo P.Rep A)) (ret : A)
        → dequeue_round P again false freed ret self ≡ taken
    unfolding dequeue_round
    round-taken again ret =
        rw
          (
            top,
            load-ok a node self.list.mem ne held,
            apart,
            not_null al (P.get_ptr node.next) next_ne,
            load-ok (P.get_ptr node.next) first self.list.mem next_ne next_held,
            (P.equal_iff self.head self.head).1 refl,
            cas_same P (P.make (P.get_ptr node.next) (P.get_tag self.head + 1)) self.head,
            freed-agree,
          )
          refl

    round-again :
        (again : A → Fifo P.Rep A → Run (Bool × A × Fifo P.Rep A)) (ret : A)
        → dequeue_round P again true freed ret self ≡ again first.value self
    unfolding dequeue_round
    round-again again ret =
        rw
          (
            top,
            load-ok a node self.list.mem ne held,
            apart,
            not_null al (P.get_ptr node.next) next_ne,
            load-ok (P.get_ptr node.next) first self.list.mem next_ne next_held,
            (P.equal_iff self.head self.head).1 refl,
            cas_spurious P self.head (P.make (P.get_ptr node.next) (P.get_tag self.head + 1))
                self.head,
          )
          refl

    loop-taken : (failures : List Bool) (ret : A) → dequeue_loop P failures freed ret self ≡ taken
    unfolding dequeue_loop
    loop-taken [] ret = round-taken (λ _ _. out_of_fuel) ret
    loop-taken (false ∷ more) ret = round-taken (dequeue_loop P more freed) ret
    loop-taken (true ∷ more) ret =
        round-again (dequeue_loop P more freed) ret ∙ loop-taken more first.value

    unsafe-taken : (fuel : ℕ) (ret : A) → dequeue_unsafe P (suc fuel) ret self ≡ taken
    unfolding dequeue_unsafe dequeue_unsafe_loop
    unsafe-taken fuel ret =
        rw
          (
            top,
            load-ok a node self.list.mem ne held,
            apart,
            not_null al (P.get_ptr node.next) next_ne,
            load-ok (P.get_ptr node.next) first self.list.mem next_ne next_held,
            destruct-eq P a self.list,
          )
          refl

    agree-taken :
        (failures : List Bool) (fuel : ℕ) (ret : A)
        → dequeue P failures freed ret self ≡ dequeue_unsafe P (suc fuel) ret self
    unfolding dequeue
    agree-taken failures fuel ret = loop-taken failures ret ∙ sym (unsafe-taken fuel ret)

  module _ (failures : List Bool) (fuel : ℕ) (ret : A) (t : ℕ) (w : A) (free : Cells A) where
    agree-cons :
        (a : ℕ) (d : A) (front : Cells A)
        → FifoInv al self ((a, d) ∷ front) t w free
        → Segment P self.list.mem.cells t (P.get_ptr self.head) ((a, d) ∷ front)
        → dequeue P failures freed ret self ≡ dequeue_unsafe P (suc fuel) ret self
    agree-cons a d front inv (top, ne, r, held, seg) =
        let first =
          Segment-First P self.list.mem.cells t (P.get_ptr r) w inv.last front seg inv.tail_ne
            inv.held in
        let small : a < P.ptr_limit =
          known-lt al self.list free ((a, d) ∷ front ++ (t, w) ∷ []) inv.pool a (ground arith) in
        let apart : (a == P.get_ptr self.tail) ≡ false =
          ground
            (arith, inv.at_tail, inv.pool.apart a, count-append a ((a, d) ∷ front) ((t, w) ∷ [])) in
        agree-taken a (record { next = r; value = d }) first.node top ne small held apart
          first.ne_null first.held failures fuel ret

    agree-at :
        (front : Cells A)
        → FifoInv al self front t w free
        → dequeue P failures freed ret self ≡ dequeue_unsafe P (suc fuel) ret self
    agree-at [] inv =
        agree-none t (record { next = inv.last; value = w }) inv.before inv.at_tail inv.tail_ne
          inv.held inv.last_null failures fuel ret
    agree-at ((a, d) ∷ front) inv = agree-cons a d front inv inv.before

  -- `dequeue` does what `dequeue_unsafe` does, on every fifo that is in order, however often calls of
  -- `compare_exchange_weak` fail for no reason.
  pub dequeue-agree :
      (failures : List Bool) (fuel : ℕ) (ret : A) (s : View A)
      → Holds al self s
      → dequeue P failures freed ret self ≡ dequeue_unsafe P (suc fuel) ret self
  dequeue-agree failures fuel ret s h =
      agree-at failures fuel ret h.tail_at h.tail_value h.free h.front h.inv
