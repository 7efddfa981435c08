-- ===== src/TaggedPtr.antt =====
-- boost/lockfree/detail/tagged_ptr.hpp: a pointer with a tag, against the ABA problem. The children
-- are its two implementations; clients take the interface below, which both fill.
pub mod Dcas
pub mod Compressed
use boost_lockfree.Prelude.{ℕ, ◌%◌, ◌<◌, ◌≡◌, ◌↔◌, Bool, true}

-- What `fifo`, `stack` and the freelists use of `tagged_ptr<T>`. A pointer is an address.
pub record TaggedPtrOps : Type 1 where
  -- the representation, the addresses that it can hold and the number of its tags
  pub Rep : Type 0
  pub ptr_limit : ℕ
  pub tag_limit : ℕ
  pub make : ℕ → ℕ → Rep
  pub get_ptr : Rep → ℕ
  pub get_tag : Rep → ℕ
  pub set_ptr : Rep → ℕ → Rep
  pub set_tag : Rep → ℕ → Rep
  pub equal : Rep → Rep → Bool
  pub some_limit : 0 < ptr_limit
  pub get_ptr-make : (p t : ℕ) → p < ptr_limit → get_ptr (make p t) ≡ p
  pub get_tag-make : (p t : ℕ) → p < ptr_limit → get_tag (make p t) ≡ t % tag_limit
  pub get_ptr-set_ptr : (r : Rep) (p : ℕ) → p < ptr_limit → get_ptr (set_ptr r p) ≡ p
  pub get_tag-set_ptr : (r : Rep) (p : ℕ) → p < ptr_limit → get_tag (set_ptr r p) ≡ get_tag r
  pub set_ptr-set_ptr : (r : Rep) (p : ℕ) → set_ptr (set_ptr r p) p ≡ set_ptr r p
  pub get_ptr-set_tag : (r : Rep) (t : ℕ) → get_ptr (set_tag r t) ≡ get_ptr r
  pub get_tag-set_tag : (r : Rep) (t : ℕ) → get_tag (set_tag r t) ≡ t % tag_limit
  pub equal_iff : (r s : Rep) → (equal r s ≡ true) ↔ (r ≡ s)
