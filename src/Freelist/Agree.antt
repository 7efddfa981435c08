-- ===== src/Freelist/Agree.antt =====
-- The thread-safe operations, when no other thread interferes, do what the unsafe ones do, however
-- often their `compare_exchange_weak` fails for no reason.
use boost_lockfree.Prelude.{
  ℕ, ◌<◌, ◌≡◌, ◌≢◌, refl, ◌∙◌, arith, Bool, true, false, ◌==◌, some, Run, >>=_ext, >>=_again,
  out_of_fuel, ◌+◌, List, [], ◌∷◌, Bool-cases, inl, inr, fun_ext,
}
use boost_lockfree.TaggedPtr.{TaggedPtrOps}
use boost_lockfree.Memory.{Node, null, Allocator, put, load, compare_exchange_weak}
use boost_lockfree.Memory.Chain.{Heap, load-ok, store-ok}
use boost_lockfree.Freelist.{
  Freelist, allocate_loop, allocate, allocate_unsafe, allocate_round, deallocate_loop, deallocate,
  deallocate_unsafe, construct, construct_unsafe,
}

pub cas_spurious :
    (P : TaggedPtrOps) (e d c : P.Rep) → compare_exchange_weak P true e d c ≡ (false, c, c)
unfolding compare_exchange_weak
cas_spurious P e d c = refl

pub cas_same : (P : TaggedPtrOps) (d c : P.Rep) → compare_exchange_weak P false c d c ≡ (true, c, d)
unfolding compare_exchange_weak
cas_same P d c = rw ((P.equal_iff c c).1 refl)

module _ {P : TaggedPtrOps} {A : Type 0} (al : Allocator P A) (may_allocate : Bool) where
  -- One round: a spurious failure leads to the next, and else the round is the last.
  round-last :
      (again : P.Rep → Freelist P.Rep A → Run (ℕ × Freelist P.Rep A)) (self : Freelist P.Rep A)
      → allocate_round al may_allocate again false self.pool self
        ≡ allocate_unsafe al may_allocate self
  unfolding allocate_round allocate_unsafe
  round-last again self = elim (Bool-cases (P.get_ptr self.pool == null)) [
    | inl none_left ↦ rw none_left
    | inr some_left ↦ rw some_left (
        >>=_ext (load (P.get_ptr self.pool) self.mem) _ _ (λ node.
          rw (cas_same P (P.make (P.get_ptr node.next) (P.get_tag self.pool + 1)) self.pool)))
  ]

  round-spurious :
      (again : P.Rep → Freelist P.Rep A → Run (ℕ × Freelist P.Rep A)) (self : Freelist P.Rep A)
      → again self.pool self ≡ allocate_unsafe al may_allocate self
      → allocate_round al may_allocate again true self.pool self
        ≡ allocate_unsafe al may_allocate self
  unfolding allocate_round allocate_unsafe
  round-spurious again self next = elim (Bool-cases (P.get_ptr self.pool == null)) [
    | inl none_left ↦ rw none_left
    | inr some_left ↦
        let next' = rw some_left at next in
        rw some_left (
          >>=_ext (load (P.get_ptr self.pool) self.mem) _ _ (λ node.
            rw
              (cas_spurious P self.pool (P.make (P.get_ptr node.next) (P.get_tag self.pool + 1))
                self.pool)
              next')
          ∙ >>=_again (load (P.get_ptr self.pool) self.mem) _)
  ]

  allocate_loop-agree :
      (failures : List Bool) (self : Freelist P.Rep A)
      → allocate_loop al may_allocate failures self.pool self ≡ allocate_unsafe al may_allocate self
  unfolding allocate_loop
  allocate_loop-agree [] self = round-last (λ _ _. out_of_fuel) self
  allocate_loop-agree (true ∷ more) self =
      round-spurious (allocate_loop al may_allocate more) self (allocate_loop-agree more self)
  allocate_loop-agree (false ∷ more) self = round-last (allocate_loop al may_allocate more) self

  -- `allocate` does what `allocate_unsafe` does, also on an empty pool.
  pub allocate-agree :
      (failures : List Bool) (self : Freelist P.Rep A)
      → allocate al may_allocate failures self ≡ allocate_unsafe al may_allocate self
  unfolding allocate
  allocate-agree failures self = allocate_loop-agree failures self

  pub construct-agree :
      (failures : List Bool) (f : P.Rep → P.Rep) (v : A) (self : Freelist P.Rep A)
      → construct al may_allocate failures f v self ≡ construct_unsafe al may_allocate f v self
  unfolding construct construct_unsafe
  construct-agree failures f v self = rw (allocate-agree failures self)

module _ (P : TaggedPtrOps) {A : Type 0} (a : ℕ) (ne : a ≢ null) (small : a < P.ptr_limit) where
  -- Linking a node again to where it leads changes nothing.
  pub put-again :
      (cells : Heap P.Rep A) (n : Node P.Rep A) (p : ℕ)
      → put
          (put cells a (record n { next = P.set_ptr n.next p }))
          a
          (record n { next = P.set_ptr (P.set_ptr n.next p) p })
        ≡ put cells a (record n { next = P.set_ptr n.next p })
  put-again cells n p = rw (P.set_ptr-set_ptr n.next p) (fun_ext λ b. ground arith)

  deallocate_loop-agree :
      (failures : List Bool) (self : Freelist P.Rep A) (n : Node P.Rep A)
      → self.mem.cells a ≡ some n
      → deallocate_loop P failures a self.pool self ≡ deallocate_unsafe P a self
  unfolding deallocate_loop deallocate_unsafe
  deallocate_loop-agree [] self n held = rw (
    P.get_ptr-make a (P.get_tag self.pool) small,
    load-ok a n self.mem ne held,
    store-ok a n self.mem ne held,
    cas_same P (P.make a (P.get_tag self.pool)) self.pool,
  )
  deallocate_loop-agree (false ∷ more) self n held = rw (
    P.get_ptr-make a (P.get_tag self.pool) small,
    load-ok a n self.mem ne held,
    store-ok a n self.mem ne held,
    cas_same P (P.make a (P.get_tag self.pool)) self.pool,
  )
  deallocate_loop-agree (true ∷ more) self n held =
      rw
        (
          P.get_ptr-make a (P.get_tag self.pool) small,
          load-ok a n self.mem ne held,
          store-ok a n self.mem ne held,
          cas_spurious P self.pool (P.make a (P.get_tag self.pool)) self.pool,
        )
        (deallocate_loop-agree more again linked there
          ∙ rw
              (
                P.get_ptr-make a (P.get_tag self.pool) small,
                load-ok a linked again.mem ne there,
                store-ok a linked again.mem ne there,
                put-again self.mem.cells n (P.get_ptr self.pool),
              )
              refl)
    where
      linked : Node P.Rep A
      linked = record n { next = P.set_ptr n.next (P.get_ptr self.pool) }

      again : Freelist P.Rep A
      again = record {
        mem = record { cells = put self.mem.cells a linked; allocated = self.mem.allocated };
        pool = self.pool;
      }

      there : again.mem.cells a ≡ some linked
      there = ground arith

  -- `deallocate` does what `deallocate_unsafe` does.
  pub deallocate-agree :
      (failures : List Bool) (self : Freelist P.Rep A) (n : Node P.Rep A)
      → self.mem.cells a ≡ some n
      → deallocate P failures a self ≡ deallocate_unsafe P a self
  unfolding deallocate
  deallocate-agree failures self n held = deallocate_loop-agree failures self n held
