-- ===== src/Fifo/Invariant.antt =====
-- When a fifo is in order: from the head a chain of nodes leads to the tail, whose link is null; the
-- first of them is the dummy.
use boost_lockfree.Prelude.{ℕ, ◌+◌, ◌≡◌, ◌≢◌, refl, ap, arith, some, List, [], ◌∷◌, ◌++◌, length}
use boost_lockfree.TaggedPtr.{TaggedPtrOps}
use boost_lockfree.Memory.{null, Allocator}
use boost_lockfree.Memory.Chain.{Cells, count, values, Heap, Segment}
use boost_lockfree.Freelist.Laws.{PoolInv}
use boost_lockfree.Fifo.{Fifo}
use boost_lockfree.Fifo.Spec.{View}

module _ {A : Type 0} where
  -- the values behind the dummy
  abbrev pub behind : List A → List A
  behind [] = []
  behind (x ∷ xs) = xs

  pub count-append : (a : ℕ) (xs ys : Cells A) → count a (xs ++ ys) ≡ count a xs + count a ys
  count-append a [] ys = omega arith
  count-append a ((b, v) ∷ xs) ys = omega (arith, count-append a xs ys)

  pub values-append : (xs ys : Cells A) → values (xs ++ ys) ≡ values xs ++ values ys
  values-append [] ys = refl
  values-append ((b, v) ∷ xs) ys = ap (λ t. v ∷ t) (values-append xs ys)

  -- A segment goes on by one node.
  pub Segment-snoc :
      (P : TaggedPtrOps) (cells : Heap P.Rep A) (t n p : ℕ) (v : A) (r : P.Rep) (xs : Cells A)
      → Segment P cells t p xs
      → t ≢ null
      → cells t ≡ some (record { next = r; value = v })
      → P.get_ptr r ≡ n
      → Segment P cells n p (xs ++ (t, v) ∷ [])
  Segment-snoc P cells t n p v r [] e ne held to = (e, ne, r, held, to)
  Segment-snoc P cells t n p v r ((a, w) ∷ xs) (e, ne', r', held', rest) ne held to =
      (e, ne', r', held', Segment-snoc P cells t n (P.get_ptr r') v r xs rest ne held to)

module _ {P : TaggedPtrOps} {A : Type 0} (al : Allocator P A) where
  -- The nodes `front` lead to the tail `t` with the datum `v`; the pool holds the chain `free`.
  pub record FifoInv (self : Fifo P.Rep A) (front : Cells A) (t : ℕ) (v : A) (free : Cells A)
      : Type 0 where
    pub before : Segment P self.list.mem.cells t (P.get_ptr self.head) front
    pub at_tail : P.get_ptr self.tail ≡ t
    pub tail_ne : t ≢ null
    pub last : P.Rep
    pub held : self.list.mem.cells t ≡ some (record { next = last; value = v })
    pub last_null : P.get_ptr last ≡ null
    pub pool : PoolInv al self.list free (front ++ (t, v) ∷ [])

  -- The fifo holds what the specification says.
  pub record Holds (self : Fifo P.Rep A) (s : View A) : Type 0 where
    pub front : Cells A
    pub tail_at : ℕ
    pub tail_value : A
    pub free : Cells A
    pub inv : FifoInv self front tail_at tail_value free
    pub view : s ≡ record {
      items = behind (values (front ++ (tail_at, tail_value) ∷ []));
      spare = length free;
    }
