-- ===== src/Freelist/Reserve.antt =====
-- `reserve_unsafe` and `reserve` put nodes of the allocator into the pool.
use boost_lockfree.Prelude.{
  ℕ, zero, suc, ◌+◌, ◌≤◌, ◌<◌, ◌≡◌, refl, ◌∙◌, arith, Bool, List, [], ◌∷◌, length, Returns,
}
use boost_lockfree.TaggedPtr.{TaggedPtrOps}
use boost_lockfree.Memory.{Allocator}
use boost_lockfree.Memory.Chain.{Cells, count}
use boost_lockfree.Freelist.{Freelist, reserve, reserve_unsafe}
use boost_lockfree.Freelist.Laws.{PoolInv, allocate_fresh}
use boost_lockfree.Freelist.Nodes.{deallocate_unsafe-Deallocated}
use boost_lockfree.Freelist.Agree.{deallocate-agree}

module _ {P : TaggedPtrOps} {A : Type 0} (al : Allocator P A) where
  -- The pool with `n` more nodes; the client's nodes are as they were.
  pub record Reserved (n : ℕ) (self : Freelist P.Rep A) (free owned : Cells A)
      (self' : Freelist P.Rep A) : Type 0 where
    pub free' : Cells A
    pub inv : PoolInv al self' free' owned
    pub size : length free' ≡ length free + n
    pub same : (b : ℕ) → 0 < count b owned → self'.mem.cells b ≡ self.mem.cells b
    pub grown : self'.mem.allocated ≡ self.mem.allocated + n

  pub reserve_unsafe-Reserved :
      (n : ℕ) (self : Freelist P.Rep A) (free owned : Cells A)
      → PoolInv al self free owned
      → self.mem.allocated + n ≤ al.supply
      → Returns (Reserved n self free owned) (reserve_unsafe al n self)
  unfolding reserve_unsafe
  reserve_unsafe-Reserved zero self free owned inv left = (
    self,
    refl,
    record {
      free' = free;
      inv = inv;
      size = omega arith;
      same = λ b there. refl;
      grown = omega arith;
    },
  )
  reserve_unsafe-Reserved (suc n) self free owned inv left =
      let ((a, mem), e, got) = allocate_fresh al self owned free inv (omega arith) in
      let list : Freelist P.Rep A = record self { mem = mem } in
      let fresh = got.0 in
      let (back, e', d) =
        deallocate_unsafe-Deallocated al list a fresh.node free owned (fresh.inv fresh.node.value)
          fresh.ne_null fresh.lt_limit fresh.holds in
      let (out, run, r) =
        reserve_unsafe-Reserved n back ((a, fresh.node.value) ∷ free) owned d.inv
          (omega (arith, d.kept, got.1)) in
      (
        out,
        rw (e, e') run,
        record {
          free' = r.free';
          inv = r.inv;
          size = omega (arith, r.size);
          same = λ b there. r.same b there ∙ d.same b there ∙ fresh.same b there;
          grown = omega (arith, r.grown, d.kept, got.1);
        },
      )

  -- `reserve` does what `reserve_unsafe` does, however often its calls of `compare_exchange_weak`
  -- fail for no reason.
  pub reserve-agree :
      (rounds : List (List Bool)) (self : Freelist P.Rep A) (free owned : Cells A)
      → PoolInv al self free owned
      → self.mem.allocated + length rounds ≤ al.supply
      → reserve al rounds self ≡ reserve_unsafe al (length rounds) self
  unfolding reserve reserve_unsafe
  reserve-agree [] self free owned inv left = refl
  reserve-agree (failures ∷ more) self free owned inv left =
      let ((a, mem), e, got) = allocate_fresh al self owned free inv (omega arith) in
      let list : Freelist P.Rep A = record self { mem = mem } in
      let fresh = got.0 in
      let (back, e', d) =
        deallocate_unsafe-Deallocated al list a fresh.node free owned (fresh.inv fresh.node.value)
          fresh.ne_null fresh.lt_limit fresh.holds in
      rw
        (
          e,
          deallocate-agree P a fresh.ne_null fresh.lt_limit failures list fresh.node fresh.holds,
          e',
        )
        (reserve-agree more back ((a, fresh.node.value) ∷ free) owned d.inv
          (omega (arith, d.kept, got.1)))
