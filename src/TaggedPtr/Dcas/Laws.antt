-- ===== src/TaggedPtr/Dcas/Laws.antt =====
-- The two-word `tagged_ptr` fills the interface.
use boost_lockfree.Prelude.{ℕ, ◌+◌, ◌%◌, ◌^◌, ◌<◌, ◌≡◌, ◌↔◌, arith, true, false}
use boost_lockfree.TaggedPtr.{TaggedPtrOps}
use boost_lockfree.TaggedPtr.Dcas.{TaggedPtr, make, equal, get_ptr, get_tag, set_ptr, set_tag}

-- A pointer below `2 ^ 64` and a tag, put together by the constructor, are read back: the pointer as it
-- was, the tag modulo `2 ^ 64`.
pub make_fields_dcas :
    (p t : ℕ) → p < 2 ^ 64 → (get_ptr (make p t) ≡ p) × (get_tag (make p t) ≡ t % 2 ^ 64)
unfolding make get_ptr get_tag
make_fields_dcas p t h = omega arith

-- `set_ptr` with a pointer below `2 ^ 64` sets the pointer and keeps the tag.
pub set_ptr_fields_dcas :
    (r : TaggedPtr) (p : ℕ)
    → p < 2 ^ 64
    → (get_ptr (set_ptr r p) ≡ p) × (get_tag (set_ptr r p) ≡ get_tag r)
unfolding set_ptr get_ptr get_tag
set_ptr_fields_dcas r p h = omega arith

pub set_ptr-set_ptr : (r : TaggedPtr) (p : ℕ) → set_ptr (set_ptr r p) p ≡ set_ptr r p
unfolding set_ptr
set_ptr-set_ptr r p = ground arith

pub set_tag_fields :
    (r : TaggedPtr) (t : ℕ)
    → (get_ptr (set_tag r t) ≡ get_ptr r) × (get_tag (set_tag r t) ≡ t % 2 ^ 64)
unfolding set_tag get_ptr get_tag
set_tag_fields r t = omega arith

pub equal_iff : (r s : TaggedPtr) → (equal r s ≡ true) ↔ (r ≡ s)
unfolding equal
equal_iff r s = (λ e. ground arith, λ e. ground arith)

abbrev pub ops : TaggedPtrOps
ops = record {
  Rep = TaggedPtr;
  ptr_limit = 2 ^ 64;
  tag_limit = 2 ^ 64;
  make = make;
  get_ptr = get_ptr;
  get_tag = get_tag;
  set_ptr = set_ptr;
  set_tag = set_tag;
  equal = equal;
  some_limit = omega arith;
  get_ptr-make = λ p t h. (make_fields_dcas p t h).0;
  get_tag-make = λ p t h. (make_fields_dcas p t h).1;
  get_ptr-set_ptr = λ r p h. (set_ptr_fields_dcas r p h).0;
  get_tag-set_ptr = λ r p h. (set_ptr_fields_dcas r p h).1;
  set_ptr-set_ptr = set_ptr-set_ptr;
  get_ptr-set_tag = λ r t. (set_tag_fields r t).0;
  get_tag-set_tag = λ r t. (set_tag_fields r t).1;
  equal_iff = equal_iff;
}

-- The ABA window: a value whose tag has been incremented between 1 and `2 ^ 64 - 1` times
-- differs from what it was, also when the pointer is the same again, and `equal` tells; after
-- `2 ^ 64` increments it is the old value.
pub aba_window_dcas :
    (p t k : ℕ)
    → 0 < k
    → k < 2 ^ 64
    → (equal (make p (t + k)) (make p t) ≡ false) × (make p (t + 2 ^ 64) ≡ make p t)
unfolding equal make
aba_window_dcas p t k some few = (ground arith, ground arith)
