-- ===== src/Ringbuffer.antt =====
-- boost/lockfree/ringbuffer.hpp: `detail::ringbuffer_base<T>`, the single-producer and
-- single-consumer ring buffer over a buffer and a size that the derived class passes in.
-- One call is one function on the two indices; the children prove what it does. An overload has a
-- name of its own: `enqueue_n` and `dequeue_n` move arrays, `enqueue_range` and `dequeue_to` go by
-- iterators. An iterator into an array is an index into it.
pub mod Bounds
pub mod Contents
pub mod Queue
pub mod Spsc
pub mod Static
pub mod Dynamic
pub mod Examples
pub mod Enqueue
pub mod EnqueueBulk
pub mod Dequeue
pub mod DequeueBulk
pub mod DequeueTo
use boost_lockfree.Prelude.{
  ℕ, zero, suc, ◌+◌, ◌-◌, min, Bool, true, false, ltb, leb, ◌==◌, if◌then◌else◌, List, Run, ok,
  fault, out_of_fuel, ◌>>=◌, add_size, sub_size,
}
use boost_lockfree.Array.{Array, read, write, copy, read_slice}

-- the two atomic indices
pub record RingbufferBase : Type 0 where
  pub write_index : ℕ
  pub read_index : ℕ

unfoldable pub init : RingbufferBase
init = record { write_index = 0; read_index = 0 }

-- `while (ret >= max_size) ret -= max_size;`
pub next_index_loop : ℕ → ℕ → ℕ → Run ℕ
next_index_loop zero ret max_size = out_of_fuel
next_index_loop (suc fuel) ret max_size =
    let rest = next_index_loop fuel (sub_size ret max_size) max_size in
    if leb max_size ret then rest else ok ret

-- Each round takes at least one off `ret` when `max_size` is positive.
unfoldable pub next_index : ℕ → ℕ → Run ℕ
unfolding next_index_loop
next_index arg max_size = let ret = add_size arg 1 in next_index_loop (suc ret) ret max_size

unfoldable pub read_available : ℕ → ℕ → ℕ → ℕ
read_available write_index read_index max_size =
    if leb read_index write_index
    then sub_size write_index read_index
    else sub_size (add_size write_index max_size) read_index

unfoldable pub write_available : ℕ → ℕ → ℕ → ℕ
write_available write_index read_index max_size =
    let ret = sub_size (sub_size read_index write_index) 1 in
    if leb read_index write_index then add_size ret max_size else ret

unfoldable pub is_empty : ℕ → ℕ → Bool
is_empty write_index read_index = write_index == read_index

unfoldable pub empty : RingbufferBase → Bool
unfolding is_empty
empty b = is_empty b.write_index b.read_index

unfoldable pub reset : RingbufferBase → RingbufferBase
reset b = record { write_index = 0; read_index = 0 }

module _ {ℓ} {A : Type ℓ} where
  -- `enqueue(T const &, T *, size_t)`
  unfoldable pub enqueue : A → Array A → ℕ → RingbufferBase → Run (Bool × Array A × RingbufferBase)
  enqueue t buffer max_size b = do
    next ← next_index b.write_index max_size
    if next == b.read_index then ok (false, buffer, b) else do
      buffer' ← write buffer b.write_index t
      ok (true, buffer', record b { write_index = next })

  -- The part of a bulk enqueue behind the check for room: the elements `first`, …,
  -- `first + input_count - 1` of the input, in two sections where they reach past the end.
  unfoldable pub copy_in :
      Array A → ℕ → ℕ → Array A → ℕ → RingbufferBase → Run (Array A × RingbufferBase)
  copy_in input first input_count internal_buffer max_size b =
      let write_index = b.write_index in
      let new_write_index = add_size write_index input_count in
      if ltb max_size (add_size write_index input_count)
      then (do
        let count0 = sub_size max_size write_index
        buffer1 ← copy input first count0 internal_buffer write_index
        buffer2 ← copy input (first + count0) (input_count - count0) buffer1 0
        ok (buffer2, record b { write_index = sub_size new_write_index max_size }))
      else (do
        buffer1 ← copy input first input_count internal_buffer write_index
        ok (
          buffer1,
          record b { write_index = if new_write_index == max_size then 0 else new_write_index },
        ))

  -- `enqueue(const T *, size_t, T *, size_t)`: the number of elements taken
  unfoldable pub enqueue_n :
      Array A → ℕ → Array A → ℕ → RingbufferBase → Run (ℕ × Array A × RingbufferBase)
  enqueue_n input input_count internal_buffer max_size b =
      let avail = write_available b.write_index b.read_index max_size in
      if avail == 0 then ok (0, internal_buffer, b) else do
        let input_count' = min input_count avail
        (buffer', b') ← copy_in input 0 input_count' internal_buffer max_size b
        ok (input_count', buffer', b')

  -- `enqueue(ConstIterator, ConstIterator, T *, size_t)`: where the first element not taken is
  unfoldable pub enqueue_range :
      Array A → ℕ → ℕ → Array A → ℕ → RingbufferBase → Run (ℕ × Array A × RingbufferBase)
  enqueue_range input begin end internal_buffer max_size b =
      let avail = write_available b.write_index b.read_index max_size in
      if avail == 0 then ok (begin, internal_buffer, b) else do
        let input_count = min (sub_size end begin) avail
        (buffer', b') ← copy_in input begin input_count internal_buffer max_size b
        ok (begin + input_count, buffer', b')

  -- `dequeue(T &, T *, size_t)`: `ret` keeps its value when the buffer is empty
  unfoldable pub dequeue : A → Array A → ℕ → RingbufferBase → Run (Bool × A × RingbufferBase)
  dequeue ret buffer max_size b =
      if is_empty b.write_index b.read_index then ok (false, ret, b) else do
        v ← read buffer b.read_index
        next ← next_index b.read_index max_size
        ok (true, v, record b { read_index = next })

  -- `dequeue(T *, size_t, const T *, size_t)`: the number of elements moved to `output_buffer`
  unfoldable pub dequeue_n :
      Array A → ℕ → Array A → ℕ → RingbufferBase → Run (ℕ × Array A × RingbufferBase)
  dequeue_n output_buffer output_count internal_buffer max_size b =
      let read_index = b.read_index in
      let avail = read_available b.write_index read_index max_size in
      if avail == 0
      then ok (0, output_buffer, b)
      else let count = min output_count avail in
        let new_read_index = add_size read_index count in
        if ltb max_size (add_size read_index count)
        then (do
          let count0 = sub_size max_size read_index
          let count1 = sub_size count count0
          out1 ← copy internal_buffer read_index (max_size - read_index) output_buffer 0
          out2 ← copy internal_buffer 0 count1 out1 count0
          ok (count, out2, record b { read_index = sub_size new_read_index max_size }))
        else (do
          out1 ← copy internal_buffer read_index count output_buffer 0
          ok (
            count,
            out1,
            record b { read_index = if new_read_index == max_size then 0 else new_read_index },
          ))

  -- `dequeue(OutputIterator, const T *, size_t)`. `assign xs d` is what `std::copy` of the elements
  -- `xs` to the iterator `it` makes of the destination `d`. Both sections are copied to `it` itself.
  unfoldable pub dequeue_to {κ} :
      {D : Type κ}
      → (List A → D → D)
      → D
      → Array A
      → ℕ
      → RingbufferBase
      → Run (ℕ × D × RingbufferBase)
  dequeue_to assign d internal_buffer max_size b =
      let read_index = b.read_index in
      let avail = read_available b.write_index read_index max_size in
      if avail == 0
      then ok (0, d, b)
      else let new_read_index = add_size read_index avail in
        if ltb max_size (add_size read_index avail)
        then (do
          let count0 = sub_size max_size read_index
          let count1 = sub_size avail count0
          xs ← read_slice internal_buffer read_index (max_size - read_index)
          ys ← read_slice internal_buffer 0 count1
          ok (
            avail,
            assign ys (assign xs d),
            record b { read_index = sub_size new_read_index max_size },
          ))
        else (do
          xs ← read_slice internal_buffer read_index avail
          ok (
            avail,
            assign xs d,
            record b { read_index = if new_read_index == max_size then 0 else new_read_index },
          ))
