-- ===== src/Stack/Destroy.antt =====
-- The loop of the destructor of the stack ends, and moves every node to the pool.
use boost_lockfree.Prelude.{
  ℕ, zero, suc, ◌+◌, ◌<◌, ◌≡◌, refl, subst, sym, ap, if◌then◌else◌, Bool-cases, inl, inr, ◌∙◌,
  arith, Bool, true, false, List, [], ◌∷◌, length, ok, Returns,
}
use boost_lockfree.TaggedPtr.{TaggedPtrOps}
use boost_lockfree.Memory.{Allocator}
use boost_lockfree.Freelist.{release}
use boost_lockfree.Freelist.Release.{GivenBack, release-GivenBack}
use boost_lockfree.Stack.{Stack, empty, drain, destroy, pop_unsafe}
use boost_lockfree.Stack.Push.{Holds}
use boost_lockfree.Stack.Pop.{pop_unsafe_refines, empty_iff}
use boost_lockfree.Stack.Spec
use boost_lockfree.Stack.Spec.{View}

module _ {P : TaggedPtrOps} {A : Type 0} (al : Allocator P A) where
  abbrev view_of : List A → ℕ → View A
  view_of items spare = record { items = items; spare = spare }

  -- One call of `pop_unsafe` in the loop: the last, or one before others.
  drain-last :
      (fuel : ℕ) (dummy : A) (self : Stack P.Rep A) (out : Bool × A × Stack P.Rep A)
      → pop_unsafe P dummy self ≡ ok out
      → out.0 ≡ false
      → drain P (suc fuel) dummy self ≡ ok out.2
  unfolding drain
  drain-last fuel dummy self (false, x, self') e last = rw e refl
  drain-last fuel dummy self (true, x, self') e last = cc

  drain-more :
      (fuel : ℕ) (dummy : A) (self : Stack P.Rep A) (out : Bool × A × Stack P.Rep A)
      → pop_unsafe P dummy self ≡ ok out
      → out.0 ≡ true
      → drain P (suc fuel) dummy self ≡ drain P fuel out.1 out.2
  unfolding drain
  drain-more fuel dummy self (true, x, self') e more = rw e refl
  drain-more fuel dummy self (false, x, self') e more = cc

  -- The loop of the destructor ends after one call of `pop_unsafe` more than there are values, and
  -- leaves an empty stack with a free node more for each of them.
  pub drain_refines :
      (items : List A) (spare fuel : ℕ) (dummy : A) (self : Stack P.Rep A)
      → Holds al self (view_of items spare)
      → length items < fuel
      → Returns
          (λ self'. Holds al self' (view_of [] (length items + spare)))
          (drain P fuel dummy self)
  unfolding Spec.pop
  drain_refines items spare zero dummy self h enough = absurd (omega arith)
  drain_refines [] spare (suc fuel) dummy self h enough =
      let (out, e, after) = pop_unsafe_refines al dummy self (view_of [] spare) h in
      let same : spare ≡ 0 + spare = omega arith in
      (
        out.2,
        drain-last fuel dummy self out e after.0,
        subst (λ k. Holds al out.2 (view_of [] k)) same after.2,
      )
  drain_refines (x ∷ items) spare (suc fuel) dummy self h enough =
      let (out, e, after) = pop_unsafe_refines al dummy self (view_of (x ∷ items) spare) h in
      let (self', run, rest) =
        drain_refines items (spare + 1) fuel out.1 out.2 after.2 (omega arith) in
      let same : length items + (spare + 1) ≡ suc (length items) + spare = omega arith in
      (
        self',
        drain-more fuel dummy self out e after.0 ∙ run,
        subst (λ k. Holds al self' (view_of [] k)) same rest,
      )

  -- The pool of an empty stack in order gives back its free nodes.
  release_empty :
      (k fuel : ℕ) (self : Stack P.Rep A)
      → Holds al self (view_of [] k)
      → k < fuel
      → Returns (GivenBack al k) (release P fuel self.list.pool self.list.mem)
  release_empty k fuel self h enough =
      let size : k ≡ length h.free = ap (λ (s : View A). s.spare) h.view in
      subst (λ n. Returns (GivenBack al n) (release P fuel self.list.pool self.list.mem)) (sym size)
        (release-GivenBack al fuel self.list h.free h.used h.inv.pool (omega (arith, size)))

  emptied :
      (items : List A) (spare fuel : ℕ) (dummy : A) (self : Stack P.Rep A)
      → Holds al self (view_of items spare)
      → length items < fuel
      → Returns
          (λ self'. Holds al self' (view_of [] (length items + spare)))
          (if empty P self then ok self else drain P fuel dummy self)
  emptied items spare fuel dummy self h enough = elim (Bool-cases (empty P self)) [
    | inl e ↦
        let none_left : items ≡ [] = (empty_iff al self (view_of items spare) h).0 e in
        let same : spare ≡ length items + spare = omega (arith, ap length none_left) in
        let h' : Holds al self (view_of [] spare) =
          subst (λ xs. Holds al self (view_of xs spare)) none_left h in
        rw e (self, refl, subst (λ k. Holds al self (view_of [] k)) same h')
    | inr e ↦ rw e (drain_refines items spare fuel dummy self h enough)
  ]

  -- The destructor of the stack, with that of its pool, ends, and gives back to the allocator a
  -- storage for each value and for each free node, none of them twice and only what came from the
  -- allocator. The fuel exceeds the number of values, and the number of values and free nodes.
  pub stack_destroy-GivenBack :
      (items : List A) (spare fuel fuel' : ℕ) (dummy : A) (self : Stack P.Rep A)
      → Holds al self (view_of items spare)
      → length items < fuel
      → length items + spare < fuel'
      → Returns (GivenBack al (length items + spare)) (destroy P fuel fuel' dummy self)
  unfolding destroy
  stack_destroy-GivenBack items spare fuel fuel' dummy self h enough enough' =
      let (self', run, h') = emptied items spare fuel dummy self h enough in
      let (given, run', back) = release_empty (length items + spare) fuel' self' h' enough' in
      (given, rw run run', back)
