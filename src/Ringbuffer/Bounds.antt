-- ===== src/Ringbuffer/Bounds.antt =====
-- The bounds of `ringbuffer_base`: when its indices are in range, and what the index computations
-- modulo `2 ^ 64` then give.
use boost_lockfree.Prelude.{
  ℕ, zero, suc, ◌+◌, ◌-◌, ◌%◌, ◌^◌, ◌≤◌, ◌<◌, ◌≡◌, refl, ap, arith, inl, inr, Bool-cases, leb,
  if◌then◌else◌, ok, out_of_fuel, add_size, sub_size,
}
use native.Mathlib.Nat.{mod-eq_of_lt, mod-eq-sub-mod}
use boost_lockfree.Ringbuffer.{
  RingbufferBase, next_index_loop, next_index, read_available, write_available,
}

-- Both indices lie below `max_size`, the buffer has that many elements, and twice the size is not
-- beyond `size_t` (no array of `2 ^ 63` bytes or more exists).
pub record IsValid (b : RingbufferBase) (size max_size : ℕ) : Type 0 where
  pub write_in : b.write_index < max_size
  pub read_in : b.read_index < max_size
  pub storage : max_size ≤ size
  pub small : max_size ≤ 2 ^ 63

-- the number of elements between two indices
abbrev pub used : ℕ → ℕ → ℕ → ℕ
used write_index read_index max_size =
    if leb read_index write_index
    then write_index - read_index
    else write_index + max_size - read_index

-- the index `i` taken round the end of the buffer, for `i < 2 * max_size`
abbrev pub wrap : ℕ → ℕ → ℕ
wrap max_size i = if leb max_size i then i - max_size else i

next_index_loop-eq-mod :
    (fuel ret max_size : ℕ)
    → ret < fuel
    → 0 < max_size
    → ret < 2 ^ 64
    → next_index_loop fuel ret max_size ≡ ok (ret % max_size)
unfolding next_index_loop
next_index_loop-eq-mod zero ret m h p w = elim h [ ]
next_index_loop-eq-mod (suc fuel) ret m h p w = elim (Bool-cases (leb m ret)) [
  | inl again ↦
      let smaller : sub_size ret m ≡ ret - m = ground arith in
      rw (again, smaller, next_index_loop-eq-mod fuel (ret - m) m (ground arith) p (omega arith))
        (ap ok (ground (arith, mod-eq-sub-mod {n = ret} {m = m})))
  | inr done ↦ rw done (ground (arith, mod-eq_of_lt {n = ret} {m = m}))
]

-- `next_index` ends for every positive size, and takes the increment modulo the size.
pub next_index-eq-mod :
    (arg max_size : ℕ) → 0 < max_size → next_index arg max_size ≡ ok (add_size arg 1 % max_size)
unfolding next_index
next_index-eq-mod arg m p =
    next_index_loop-eq-mod (suc (add_size arg 1)) (add_size arg 1) m (omega arith) p (omega arith)

-- With a size of 0 no amount of fuel makes the loop end.
pub next_index_loop-zero : (fuel ret : ℕ) → next_index_loop fuel ret 0 ≡ out_of_fuel
unfolding next_index_loop
next_index_loop-zero zero ret = refl
next_index_loop-zero (suc fuel) ret = rw (next_index_loop-zero fuel (sub_size ret 0)) (ground arith)

pub next_index-wrap :
    (arg max_size : ℕ)
    → arg < max_size
    → max_size ≤ 2 ^ 63
    → next_index arg max_size ≡ ok (wrap max_size (arg + 1))
next_index-wrap arg m h s =
    rw (next_index-eq-mod arg m (omega arith))
      (ground (arith, mod-eq_of_lt {n = arg + 1} {m = m}, mod-eq-sub-mod {n = arg + 1} {m = m}))

pub read_available-eq-used :
    (w r m : ℕ) → w < m → r < m → m ≤ 2 ^ 63 → read_available w r m ≡ used w r m
unfolding read_available
read_available-eq-used w r m hw hr s = ground arith

-- One element of the buffer is always left free.
pub write_available-eq-free :
    (w r m : ℕ) → w < m → r < m → m ≤ 2 ^ 63 → write_available w r m ≡ m - 1 - used w r m
unfolding write_available
write_available-eq-free w r m hw hr s = ground arith
