-- ===== src/TaggedPtr/Dcas.antt =====
-- boost/lockfree/detail/tagged_ptr_dcas.hpp: pointer and tag in two words.
pub mod Laws
use boost_lockfree.Prelude.{ℕ, ◌%◌, ◌^◌, Bool, ◌&&◌, not, ◌==◌}

pub record TaggedPtr : Type 0 where
  pub ptr : ℕ
  pub tag : ℕ

-- `tag_t` is `size_t`: what is passed as a tag is taken modulo `2 ^ 64`.
abbrev pub tag_t : ℕ → ℕ
tag_t t = t % 2 ^ 64

unfoldable pub copy : TaggedPtr → TaggedPtr
copy p = record { ptr = p.ptr; tag = p.tag }

unfoldable pub make : ℕ → ℕ → TaggedPtr
make p t = record { ptr = p; tag = tag_t t }

-- `set` and `operator=` replace the value that they are called on.
unfoldable pub set : TaggedPtr → ℕ → ℕ → TaggedPtr
set self p t = record self { ptr = p; tag = tag_t t }

unfoldable pub assign : TaggedPtr → TaggedPtr → TaggedPtr
unfolding set
assign self p = set self p.ptr p.tag

unfoldable pub equal : TaggedPtr → TaggedPtr → Bool
equal self p = self.ptr == p.ptr && self.tag == p.tag

unfoldable pub not_equal : TaggedPtr → TaggedPtr → Bool
unfolding equal
not_equal self p = not (equal self p)

unfoldable pub get_ptr : TaggedPtr → ℕ
get_ptr self = self.ptr

unfoldable pub set_ptr : TaggedPtr → ℕ → TaggedPtr
set_ptr self p = record self { ptr = p }

unfoldable pub get_tag : TaggedPtr → ℕ
get_tag self = self.tag

unfoldable pub set_tag : TaggedPtr → ℕ → TaggedPtr
set_tag self t = record self { tag = tag_t t }

-- `operator*` and `operator->` go to this address.
unfoldable pub deref : TaggedPtr → ℕ
deref self = self.ptr

unfoldable pub to_bool : TaggedPtr → Bool
to_bool self = not (self.ptr == 0)
