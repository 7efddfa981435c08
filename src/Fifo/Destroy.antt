-- ===== src/Fifo/Destroy.antt =====
-- The loop of the destructor of the fifo ends, and moves every node to the pool.
use boost_lockfree.Prelude.{
  ℕ, zero, suc, ◌+◌, ◌<◌, ◌≡◌, refl, subst, sym, ap, if◌then◌else◌, Bool-cases, inl, inr, ◌∙◌,
  arith, Bool, true, false, List, [], ◌∷◌, length, ok, Returns, ◌++◌, ◌>>=◌,
}
use boost_lockfree.TaggedPtr.{TaggedPtrOps}
use boost_lockfree.Memory.{Allocator, Node}
use boost_lockfree.Memory.Chain.{Cells, values}
use boost_lockfree.Freelist.{release, destruct}
use boost_lockfree.Freelist.Laws.{known-lt}
use boost_lockfree.Freelist.Agree.{deallocate-agree}
use boost_lockfree.Freelist.Nodes.{Deallocated, deallocate_unsafe-Deallocated}
use boost_lockfree.Freelist.Release.{GivenBack, release-GivenBack}
use boost_lockfree.Fifo.{Fifo, empty, drain, destroy, dequeue_unsafe}
use boost_lockfree.Fifo.Invariant.{behind, FifoInv, Holds}
use boost_lockfree.Fifo.Dequeue.{dequeue_unsafe_refines, fifo_empty_iff, some_value}
use boost_lockfree.Fifo.Spec
use boost_lockfree.Fifo.Spec.{View}

module _ {P : TaggedPtrOps} {A : Type 0} (al : Allocator P A) where
  abbrev view_of : List A → ℕ → View A
  view_of items spare = record { items = items; spare = spare }

  -- One call of `dequeue_unsafe` in the loop: the last, or one before others.
  drain-last :
      (fuel : ℕ) (dummy : A) (self : Fifo P.Rep A) (out : Bool × A × Fifo P.Rep A)
      → dequeue_unsafe P (suc fuel) dummy self ≡ ok out
      → out.0 ≡ false
      → drain P (suc fuel) dummy self ≡ ok out.2
  unfolding drain
  drain-last fuel dummy self (false, x, self') e last = rw e refl
  drain-last fuel dummy self (true, x, self') e last = cc

  drain-more :
      (fuel : ℕ) (dummy : A) (self : Fifo P.Rep A) (out : Bool × A × Fifo P.Rep A)
      → dequeue_unsafe P (suc fuel) dummy self ≡ ok out
      → out.0 ≡ true
      → drain P (suc fuel) dummy self ≡ drain P fuel out.1 out.2
  unfolding drain
  drain-more fuel dummy self (true, x, self') e more = rw e refl
  drain-more fuel dummy self (false, x, self') e more = cc

  -- The loop of the destructor ends after one call of `dequeue_unsafe` more than there are values, and
  -- leaves an empty fifo with a free node more for each of them.
  pub fifo_drain_refines :
      (items : List A) (spare fuel : ℕ) (dummy : A) (self : Fifo P.Rep A)
      → Holds al self (view_of items spare)
      → length items < fuel
      → Returns
          (λ self'. Holds al self' (view_of [] (length items + spare)))
          (drain P fuel dummy self)
  unfolding Spec.dequeue
  fifo_drain_refines items spare zero dummy self h enough = absurd (omega arith)
  fifo_drain_refines [] spare (suc fuel) dummy self h enough =
      let (out, e, after) = dequeue_unsafe_refines al fuel dummy self (view_of [] spare) h in
      let same : spare ≡ 0 + spare = omega arith in
      (
        out.2,
        drain-last fuel dummy self out e after.0,
        subst (λ k. Holds al out.2 (view_of [] k)) same after.2,
      )
  fifo_drain_refines (x ∷ items) spare (suc fuel) dummy self h enough =
      let (out, e, after) =
        dequeue_unsafe_refines al fuel dummy self (view_of (x ∷ items) spare) h in
      let (self', run, rest) =
        fifo_drain_refines items (spare + 1) fuel out.1 out.2 after.2 (omega arith) in
      let same : length items + (spare + 1) ≡ suc (length items) + spare = omega arith in
      (
        self',
        drain-more fuel dummy self out e after.0 ∙ run,
        subst (λ k. Holds al self' (view_of [] k)) same rest,
      )

  emptied :
      (items : List A) (spare fuel : ℕ) (dummy : A) (self : Fifo P.Rep A)
      → Holds al self (view_of items spare)
      → length items < fuel
      → Returns
          (λ self'. Holds al self' (view_of [] (length items + spare)))
          (if empty P self then ok self else drain P fuel dummy self)
  emptied items spare fuel dummy self h enough = elim (Bool-cases (empty P self)) [
    | inl e ↦
        let none_left : items ≡ [] = (fifo_empty_iff al self (view_of items spare) h).0 e in
        let same : spare ≡ length items + spare = omega (arith, ap length none_left) in
        let h' : Holds al self (view_of [] spare) =
          subst (λ xs. Holds al self (view_of xs spare)) none_left h in
        rw e (self, refl, subst (λ k. Holds al self (view_of [] k)) same h')
    | inr e ↦ rw e (fifo_drain_refines items spare fuel dummy self h enough)
  ]

  front_empty :
      (front : Cells A) (t : ℕ) (w : A) → [] ≡ behind (values (front ++ (t, w) ∷ [])) → front ≡ []
  front_empty [] t w e = refl
  front_empty ((a, d) ∷ front) t w e = absurd (omega (arith, some_value al t w front, ap length e))

  module _ (freed : List Bool) (fuel : ℕ) (self : Fifo P.Rep A) (t : ℕ) (w : A) (free : Cells A)
      (inv : FifoInv al self [] t w free) where
    -- The dummy node goes to the pool.
    dummy-Deallocated :
        Returns
          (Deallocated al self.list t w free [])
          (destruct P freed (P.get_ptr self.head) self.list)
    unfolding destruct
    dummy-Deallocated =
        let small : t < P.ptr_limit =
          known-lt al self.list free ((t, w) ∷ []) inv.pool t (ground arith) in
        let node : Node P.Rep A = record { next = inv.last; value = w } in
        rw (inv.before, deallocate-agree P t inv.tail_ne small freed self.list node inv.held)
          (deallocate_unsafe-Deallocated al self.list t node free [] inv.pool inv.tail_ne small
            inv.held)

    dummy_release :
        suc (length free) < fuel
        → Returns (GivenBack al (suc (length free))) (
            destruct P freed (P.get_ptr self.head) self.list >>= λ list.
            release P fuel list.pool list.mem)
    dummy_release enough =
        let (list, run, back) = dummy-Deallocated in
        let (given, run', all) =
          release-GivenBack al fuel list ((t, w) ∷ free) [] back.inv enough in
        (given, rw run run', all)

  -- A fifo that holds no value has one node, the dummy.
  release_empty :
      (freed : List Bool) (k fuel : ℕ) (self : Fifo P.Rep A)
      → Holds al self (view_of [] k)
      → suc k < fuel
      → Returns (GivenBack al (suc k)) (
          destruct P freed (P.get_ptr self.head) self.list >>= λ list.
          release P fuel list.pool list.mem)
  release_empty freed k fuel self h enough =
      let size : k ≡ length h.free = ap (λ (s : View A). s.spare) h.view in
      let none_left : [] ≡ behind (values (h.front ++ (h.tail_at, h.tail_value) ∷ [])) =
        ap (λ (s : View A). s.items) h.view in
      let no_front = front_empty h.front h.tail_at h.tail_value none_left in
      let inv = subst (λ xs. FifoInv al self xs h.tail_at h.tail_value h.free) no_front h.inv in
      subst
        (λ n. Returns (GivenBack al (suc n)) (
          destruct P freed (P.get_ptr self.head) self.list >>= λ list.
          release P fuel list.pool list.mem))
        (sym size)
        (dummy_release freed fuel self h.tail_at h.tail_value h.free inv (omega (arith, size)))

  -- The destructor of the fifo, with that of its pool, ends, and gives back to the allocator a
  -- storage for each value, for each free node and for the dummy, none of them twice and only what
  -- came from the allocator. The fuel exceeds the number of these nodes.
  pub fifo_destroy-GivenBack :
      (items : List A) (spare fuel : ℕ) (freed : List Bool) (dummy : A) (self : Fifo P.Rep A)
      → Holds al self (view_of items spare)
      → length items + spare + 1 < fuel
      → Returns (GivenBack al (suc (length items + spare))) (destroy P fuel freed dummy self)
  unfolding destroy
  fifo_destroy-GivenBack items spare fuel freed dummy self h enough =
      let (self', run, h') = emptied items spare fuel dummy self h (omega arith) in
      let (given, run', back) =
        release_empty freed (length items + spare) fuel self' h' (omega arith) in
      (given, rw run run', back)
