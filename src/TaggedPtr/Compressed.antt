-- ===== src/TaggedPtr/Compressed.antt =====
-- boost/lockfree/detail/tagged_ptr_ptrcompression.hpp: on x86_64 a pointer has 48 bits, and the tag
-- stands in the upper 16 bits of the same 64-bit word.
pub mod Laws
use boost_lockfree.Prelude.{ℕ, ◌+◌, ◌*◌, ◌/◌, ◌%◌, ◌^◌, Bool, not, ◌==◌}

-- `compressed_ptr_t ptr`, below `2 ^ 64`
pub record TaggedPtr : Type 0 where
  pub ptr : ℕ

-- `i & ptr_mask`, the lower 48 bits
unfoldable pub extract_ptr : ℕ → ℕ
extract_ptr i = i % 2 ^ 48

-- The fourth of the four 16-bit tags of the union, on a little-endian machine.
unfoldable pub extract_tag : ℕ → ℕ
extract_tag i = i / 2 ^ 48 % 2 ^ 16

-- The word of the pointer, its fourth 16 bits replaced by the tag.
unfoldable pub pack_ptr : ℕ → ℕ → ℕ
pack_ptr ptr tag = ptr % 2 ^ 48 + tag % 2 ^ 16 * 2 ^ 48

unfoldable pub copy : TaggedPtr → TaggedPtr
copy p = record { ptr = p.ptr }

-- The constructor's parameter is a `tag_t`, 16 bits.
unfoldable pub make : ℕ → ℕ → TaggedPtr
unfolding pack_ptr
make p t = record { ptr = pack_ptr p (t % 2 ^ 16) }

unfoldable pub assign : TaggedPtr → TaggedPtr → TaggedPtr
assign self p = record { ptr = p.ptr }

unfoldable pub set : TaggedPtr → ℕ → ℕ → TaggedPtr
unfolding pack_ptr
set self p t = record { ptr = pack_ptr p (t % 2 ^ 16) }

unfoldable pub equal : TaggedPtr → TaggedPtr → Bool
equal self p = self.ptr == p.ptr

unfoldable pub not_equal : TaggedPtr → TaggedPtr → Bool
unfolding equal
not_equal self p = not (equal self p)

unfoldable pub get_ptr : TaggedPtr → ℕ
unfolding extract_ptr
get_ptr self = extract_ptr self.ptr

unfoldable pub get_tag : TaggedPtr → ℕ
unfolding extract_tag
get_tag self = extract_tag self.ptr

unfoldable pub set_ptr : TaggedPtr → ℕ → TaggedPtr
unfolding get_tag pack_ptr
set_ptr self p = let tag = get_tag self in record { ptr = pack_ptr p tag }

unfoldable pub set_tag : TaggedPtr → ℕ → TaggedPtr
unfolding get_ptr pack_ptr
set_tag self t = let p = get_ptr self in record { ptr = pack_ptr p (t % 2 ^ 16) }

-- `operator*` and `operator->` go to this address.
unfoldable pub deref : TaggedPtr → ℕ
unfolding get_ptr
deref self = get_ptr self

unfoldable pub to_bool : TaggedPtr → Bool
unfolding get_ptr
to_bool self = not (get_ptr self == 0)
