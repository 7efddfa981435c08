-- ===== src/Atomic/Larger/Examples.antt =====
-- The theorems on the operations for a byte inside a word of 32 bits, 8 places up, and on the byte at the
-- address 0x1001.
use native.Mathlib.Nat.{mod-lt}
use boost_lockfree.Prelude.{ℕ, ◌+◌, ◌*◌, ◌%◌, ◌^◌, ◌≤◌, ◌≡◌, arith, false}
use boost_lockfree.Atomic.Weak.{Attempt}
use boost_lockfree.Atomic.Larger.{compare_exchange_weak, extract, width}
use boost_lockfree.Atomic.Larger.Address.{
  word_little, word_big, get_base, get_offset, get_shift_little, get_shift_big, field_at_address,
}
use boost_lockfree.Atomic.Larger.Linear.{Swapped, larger_swaps}

-- Another thread changes the byte above.
abbrev above : Attempt
above = record { others = λ v. (v + 0x10000) % 2 ^ 32; spurious = false }

larger_swaps_example :
    Swapped 16 8 8 above 0x56 0xab 0x12345678
      (compare_exchange_weak 16 8 8 above 0x56 0xab 0x12345678)
larger_swaps_example =
    larger_swaps 16 8 8 above 0x56 0xab 0x12345678 (omega arith) (omega arith) (omega arith)
      (omega arith)

abbrev mem : ℕ → ℕ
mem a = a % 256

field_at_address_example :
    (get_base 62 2 0 0x1001 + get_offset 62 2 0 0x1001 ≡ 0x1001)
    × (0x1001 + 2 ^ 0 ≤ get_base 62 2 0 0x1001 + 2 ^ 2)
    × (width (get_shift_big 62 2 0 0x1001) (8 * 2 ^ 0) (get_shift_little 62 2 0 0x1001) ≡ 8 * 2 ^ 2)
    × (extract
          (get_shift_big 62 2 0 0x1001)
          (8 * 2 ^ 0)
          (get_shift_little 62 2 0 0x1001)
          (word_little mem (get_base 62 2 0 0x1001) (2 ^ 2))
        ≡ word_little mem 0x1001 (2 ^ 0))
    × (extract
          (get_shift_little 62 2 0 0x1001)
          (8 * 2 ^ 0)
          (get_shift_big 62 2 0 0x1001)
          (word_big mem (get_base 62 2 0 0x1001) (2 ^ 2))
        ≡ word_big mem 0x1001 (2 ^ 0))
field_at_address_example =
    field_at_address 62 2 0 mem (λ a. mod-lt a (omega arith)) 0x1001 (omega arith) (omega arith)
