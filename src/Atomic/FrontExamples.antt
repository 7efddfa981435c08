-- ===== src/Atomic/FrontExamples.antt =====
-- The theorems on the front end at concrete classes: `bool` as one byte over the fallback, a flag on
-- it, and pointers to elements of eight bytes.
use boost_lockfree.Prelude.{
  ℕ, ◌+◌, ◌%◌, ◌^◌, ◌<◌, ◌≡◌, refl, arith, Bool, true, false, ◌==◌, List, [], ◌∷◌, length,
}
use boost_lockfree.Atomic.Order.{MemoryOrder}
use boost_lockfree.Atomic.Platform.{Event, IsAddition}
use boost_lockfree.Atomic.Fallback.{fallback_atomic, fallback-IsAtomic}
use boost_lockfree.Atomic.Casts.{
  Object, IsBytes, IsAtomicObject, platform_atomic, to_integral, from_integral,
  casts-IsAtomicObject,
}

abbrev byte_of : Bool → List ℕ
byte_of true = 1 ∷ []
byte_of false = 0 ∷ []

abbrev of_byte : List ℕ → Bool
of_byte [] = false
of_byte (b ∷ bs) = b == 1

byte_of-size : (t : Bool) → length (byte_of t) ≡ 1
byte_of-size true = refl
byte_of-size false = refl

byte_of-IsBytes : (t : Bool) → IsBytes (byte_of t)
byte_of-IsBytes true = (omega arith, tt)
byte_of-IsBytes false = (omega arith, tt)

of_byte-byte_of : (t : Bool) → of_byte (byte_of t) ≡ t
of_byte-byte_of true = refl
of_byte-byte_of false = refl

abbrev bool_object : Object Bool 1
bool_object = record {
  bytes = byte_of;
  of_bytes = of_byte;
  size = byte_of-size;
  are_bytes = byte_of-IsBytes;
  of_bytes-bytes = of_byte-byte_of;
}

casts-IsAtomicObject_example :
    IsAtomicObject bool_object (platform_atomic bool_object fallback_atomic)
    × ((t : Bool)
        → (from_integral bool_object (to_integral bool_object t) ≡ t)
          × (to_integral bool_object t < 256 ^ 1))
casts-IsAtomicObject_example = casts-IsAtomicObject bool_object fallback_atomic fallback-IsAtomic

abbrev locked_add : ℕ → MemoryOrder → ℕ → ℕ × ℕ × List Event
locked_add n o i = (i, (i + n) % 2 ^ 64, Event.locked ∷ [])

locked_add-IsAddition : IsAddition 64 locked_add
locked_add-IsAddition n o i = (refl, refl)
