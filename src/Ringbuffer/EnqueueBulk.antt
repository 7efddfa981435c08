-- ===== src/Ringbuffer/EnqueueBulk.antt =====
-- The bulk enqueue operations, from an array and from a pair of iterators.
use boost_lockfree.Prelude.{
  ℕ, ◌+◌, ◌-◌, ◌≤◌, ◌<◌, ◌≡◌, ◌^◌, refl, sym, arith, List, ◌++◌, ltb, ◌==◌, ok, Returns, Bool-cases,
  inl, inr, length, add_size, sub_size, min, if◌then◌else◌, length-tabulate, take-tabulate,
}
use mathlib.Core.List.{append-nil}
use boost_lockfree.Array.{Array, copy-ok, overlay, slice}
use boost_lockfree.Ringbuffer.{RingbufferBase, write_available, copy_in, enqueue_n, enqueue_range}
use boost_lockfree.Ringbuffer.Bounds.{IsValid, used, wrap, write_available-eq-free}
use boost_lockfree.Ringbuffer.Contents.{contents, length-contents, contents_grow, Holds}
use boost_lockfree.Ringbuffer.Queue

module _ {A : Type 0} (input buffer : Array A) (first k m : ℕ) (b : RingbufferBase) where
  -- The cells after the copy: the elements of the input from the write index on, round the end.
  abbrev copied : ℕ → A
  copied =
      if ltb m (b.write_index + k)
      then overlay input.at (first + (m - b.write_index)) (k - (m - b.write_index))
          (overlay input.at first (m - b.write_index) buffer.at b.write_index) 0
      else overlay input.at first k buffer.at b.write_index

  abbrev moved : RingbufferBase
  moved = record { write_index = wrap m (b.write_index + k); read_index = b.read_index }

  module _ (v : IsValid b buffer.size m) (inside : first + k ≤ input.size)
      (room : k + used b.write_index b.read_index m < m) where
    copy_in-ok :
        copy_in input first k buffer m b ≡ ok (record { size = buffer.size; at = copied }, moved)
    unfolding copy_in
    copy_in-ok = elim (Bool-cases (ltb m (b.write_index + k))) [
      | inl two ↦
          let half : Array A = record {
            size = buffer.size;
            at = overlay input.at first (m - b.write_index) buffer.at b.write_index;
          } in
          rw
            (
              sum,
              two,
              rest,
              taken (ground arith),
              copy-ok input first (m - b.write_index) buffer b.write_index (ground arith)
                  (omega arith),
              copy-ok input (first + (m - b.write_index)) (k - (m - b.write_index)) half 0
                  (ground arith) (ground arith),
            )
            (ground arith)
      | inr one ↦
          rw (sum, one, copy-ok input first k buffer b.write_index (omega arith) (ground arith))
            (ground arith)
    ]
      where
        sum : add_size b.write_index k ≡ b.write_index + k
        sum = ground arith

        rest : sub_size m b.write_index ≡ m - b.write_index
        rest = ground arith

        taken : m ≤ b.write_index + k → sub_size (b.write_index + k) m ≡ b.write_index + k - m
        taken past = ground arith

    copied-fresh : (i : ℕ) → i < k → copied (wrap m (b.write_index + i)) ≡ input.at (first + i)
    copied-fresh i lt = ground arith

    copied-old :
        (i : ℕ)
        → i < used b.write_index b.read_index m
        → copied (wrap m (b.read_index + i)) ≡ buffer.at (wrap m (b.read_index + i))
    copied-old i lt = ground arith

    copy_in-Holds :
        Holds buffer m
          (contents m buffer.at b ++ slice input first k)
          (record { size = buffer.size; at = copied })
          moved
    copy_in-Holds = record {
      items =
          contents_grow m b.write_index b.read_index k v.write_in v.read_in buffer.at copied
            (λ i. input.at (first + i)) room copied-old copied-fresh;
      valid = ground arith;
      same_size = refl;
    }

module _ {A : Type 0} (input buffer : Array A) (m : ℕ) (b : RingbufferBase) where
  abbrev held : List A
  held = contents m buffer.at b

  -- The outcome of a bulk enqueue of the `count` elements from index `first` of the input: the
  -- number of elements taken and the new contents are the queue's.
  pub record EnqueuedList (first count : ℕ) (taken : ℕ) (buffer' : Array A) (b' : RingbufferBase)
      : Type 0 where
    pub answer : taken ≡ (Queue.enqueue_list (m - 1) held (slice input first count)).0
    pub holds :
        Holds buffer m (Queue.enqueue_list (m - 1) held (slice input first count)).1 buffer' b'

  module _ (v : IsValid b buffer.size m) where
    free-eq : write_available b.write_index b.read_index m ≡ m - 1 - length held
    free-eq =
        rw (length-contents m buffer.at b)
          (write_available-eq-free b.write_index b.read_index m v.write_in v.read_in v.small)

    -- What the queue takes, in terms of the indices.
    queue-takes :
        (first count : ℕ)
        → Queue.enqueue_list (m - 1) held (slice input first count) ≡ (
          min count (m - 1 - length held),
          held ++ slice input first (min count (m - 1 - length held)),
        )
    unfolding Queue.enqueue_list
    queue-takes first count = rw (
      length-tabulate count (λ i. input.at (first + i)),
      take-tabulate count (min count (m - 1 - length held)) (λ i. input.at (first + i))
          (omega arith),
    )

    module _ (first count : ℕ) where
      enqueued-none : m - 1 - length held ≡ 0 → EnqueuedList first count 0 buffer b
      enqueued-none full = record {
        answer = rw (queue-takes first count) (omega arith);
        holds = record {
          items = rw (queue-takes first count, full, nothing) (sym (append-nil held));
          valid = v;
          same_size = refl;
        };
      }
        where
          nothing : min count 0 ≡ 0
          nothing = omega arith

      -- the number of elements that a bulk enqueue takes
      abbrev share : ℕ
      share = min count (m - 1 - length held)

      enqueued-some :
          first + count ≤ input.size
          → (buffer' : Array A) × (b' : RingbufferBase) × (copy_in input first share buffer m b
              ≡ ok (buffer', b'))
            × EnqueuedList first count share buffer' b'
      enqueued-some inside = (
        _,
        _,
        copy_in-ok input buffer first share m b v (omega arith) room,
        record {
          answer = rw (queue-takes first count);
          holds =
              rw (queue-takes first count)
                (copy_in-Holds input buffer first share m b v (omega arith) room);
        },
      )
        where
          room : share + used b.write_index b.read_index m < m
          room = ground (arith, length-contents m buffer.at b)

    -- `enqueue_n` takes as many elements as the bounded queue has room for, in order, and returns
    -- their number; the invariant is kept.
    -- The ring buffer is valid, and the input has `count` elements.
    pub enqueue_n_refines :
        (count : ℕ)
        → count ≤ input.size
        → Returns
            (λ (n, buffer', b'). EnqueuedList 0 count n buffer' b')
            (enqueue_n input count buffer m b)
    unfolding enqueue_n
    enqueue_n_refines count inside = elim (Bool-cases (m - 1 - length held == 0)) [
      | inl none_free ↦
          ((0, buffer, b), rw (free-eq, none_free), enqueued-none 0 count (ground arith))
      | inr some_free ↦
          let (buffer', b', e, out) = enqueued-some 0 count (omega arith) in
          ((share 0 count, buffer', b'), rw (free-eq, some_free, e), out)
    ]

    -- `enqueue_range` of the iterators `begin` and `end` takes as many elements of the range as the
    -- bounded queue has room for, in order, and returns the iterator behind the last of them; the
    -- invariant is kept.
    -- The ring buffer is valid, and the range lies in the input.
    pub enqueue_range_refines :
        (begin end : ℕ)
        → begin ≤ end
        → end ≤ input.size
        → input.size < 2 ^ 64
        → Returns
            (λ (last, buffer', b').
              (n : ℕ) × (last ≡ begin + n) × EnqueuedList begin (end - begin) n buffer' b')
            (enqueue_range input begin end buffer m b)
    unfolding enqueue_range
    enqueue_range_refines begin end ordered inside small =
        elim (Bool-cases (m - 1 - length held == 0)) [
          | inl none_free ↦ (
            (begin, buffer, b),
            rw (free-eq, none_free),
            (0, omega arith, enqueued-none begin (end - begin) (ground arith)),
          )
          | inr some_free ↦
              let (buffer', b', e, out) = enqueued-some begin (end - begin) (omega arith) in
              (
                (begin + share begin (end - begin), buffer', b'),
                rw (free-eq, some_free, distance, e),
                (share begin (end - begin), refl, out),
              )
        ]
      where
        distance : sub_size end begin ≡ end - begin
        distance = omega arith
