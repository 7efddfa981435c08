-- ===== src/Freelist/Release.antt =====
-- What the destructor of the pool gives back to the allocator.
use boost_lockfree.Prelude.{
  ℕ, zero, suc, ◌+◌, ◌≤◌, ◌<◌, ◌≡◌, refl, ap, arith, ◌==◌, if◌then◌else◌, List, [], ◌∷◌, length, ok,
  Returns,
}
use boost_lockfree.TaggedPtr.{TaggedPtrOps}
use boost_lockfree.Memory.{Memory, Allocator}
use boost_lockfree.Memory.Links.{occurrences}
use boost_lockfree.Memory.Chain.{Cells, count, Chain, load-ok}
use boost_lockfree.Freelist.{Freelist, release}
use boost_lockfree.Freelist.Laws.{PoolInv, not_null}

abbrev addresses : {A : Type 0} → Cells A → List ℕ
addresses [] = []
addresses ((a, v) ∷ xs) = a ∷ addresses xs

length-addresses : {A : Type 0} (xs : Cells A) → length (addresses xs) ≡ length xs
length-addresses [] = refl
length-addresses ((a, v) ∷ xs) = ap suc (length-addresses xs)

occurrences-addresses :
    {A : Type 0} (b : ℕ) (xs : Cells A) → occurrences b (addresses xs) ≡ count b xs
occurrences-addresses b [] = refl
occurrences-addresses b ((a, v) ∷ xs) =
    ap (λ k. (if b == a then 1 else 0) + k) (occurrences-addresses b xs)

module _ {P : TaggedPtrOps} {A : Type 0} (al : Allocator P A) where
  -- `n` storages are given back, each once, and each came from the allocator.
  pub record GivenBack (n : ℕ) (given : List ℕ) : Type 0 where
    pub size : length given ≡ n
    pub once : (a : ℕ) → occurrences a given ≤ 1
    pub known : (a : ℕ) → 0 < occurrences a given → (i : ℕ) × (i < al.supply) × (a ≡ al.addr i)

  release-addresses :
      (fuel : ℕ) (current : P.Rep) (m : Memory P.Rep A) (free : Cells A)
      → Chain P m.cells (P.get_ptr current) free
      → length free < fuel
      → release P fuel current m ≡ ok (addresses free)
  unfolding release
  release-addresses zero current m free chain enough = absurd (omega arith)
  release-addresses (suc fuel) current m [] chain enough = rw chain refl
  release-addresses (suc fuel) current m ((a, v) ∷ free) (e, ne, r, held, rest) enough =
      rw
        (
          e,
          not_null al a ne,
          load-ok a _ m ne held,
          release-addresses fuel r m free rest (omega arith),
        )
        refl

  -- The destructor gives back the free nodes.
  pub release-GivenBack :
      (fuel : ℕ) (self : Freelist P.Rep A) (free owned : Cells A)
      → PoolInv al self free owned
      → length free < fuel
      → Returns (GivenBack (length free)) (release P fuel self.pool self.mem)
  release-GivenBack fuel self free owned inv enough = (
    addresses free,
    release-addresses fuel self.pool self.mem free inv.chain enough,
    record {
      size = length-addresses free;
      once = λ a. omega (arith, inv.apart a, occurrences-addresses a free);
      known = λ a there.
          let (i, below, same) = inv.known a (omega (arith, there, occurrences-addresses a free)) in
          (i, omega (arith, inv.within), same);
    },
  )
