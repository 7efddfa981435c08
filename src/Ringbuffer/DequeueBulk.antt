-- ===== src/Ringbuffer/DequeueBulk.antt =====
-- The bulk dequeue operation to an array, `dequeue_n`, implements that of the bounded queue.
use boost_lockfree.Prelude.{
  ℕ, ◌+◌, ◌-◌, ◌≤◌, ◌<◌, ◌≡◌, ◌≢◌, refl, sym, ap, ap₂, ◌∙◌, arith, List, ◌++◌, ◌==◌, false, ok,
  Returns, ltb, Bool-cases, inl, inr, length, min, add_size, sub_size, if◌then◌else◌, take, drop,
  tabulate_ext, length-tabulate, take-append, drop-append,
}
use boost_lockfree.Array.{Array, copy-ok, overlay, slice}
use boost_lockfree.Ringbuffer.{RingbufferBase, read_available, dequeue_n}
use boost_lockfree.Ringbuffer.Bounds.{IsValid, used, wrap, read_available-eq-used}
use boost_lockfree.Ringbuffer.Contents.{contents, window, length-contents, contents_shrink}
use boost_lockfree.Ringbuffer.Queue

module _ {A : Type 0} (buffer : Array A) (m : ℕ) (b : RingbufferBase)
    (v : IsValid b buffer.size m) where
  abbrev pub held : List A
  held = contents m buffer.at b

  abbrev pub moved : ℕ → RingbufferBase
  moved k = record { write_index = b.write_index; read_index = wrap m (b.read_index + k) }

  pub avail-eq : read_available b.write_index b.read_index m ≡ used b.write_index b.read_index m
  avail-eq = read_available-eq-used b.write_index b.read_index m v.write_in v.read_in v.small

  -- Taking `k` elements away is what the queue does.
  pub queue-gives :
      (k : ℕ)
      → k ≤ used b.write_index b.read_index m
      → (window m buffer.at b.read_index k ≡ take k held)
        × (contents m buffer.at (moved k) ≡ drop k held)
  queue-gives k enough = (sym (cut take ∙ taken), sym (cut drop ∙ dropped))
    where
      front : List A
      front = window m buffer.at b.read_index k

      back : List A
      back = contents m buffer.at (moved k)

      split : held ≡ front ++ back
      split = contents_shrink m b.write_index b.read_index k v.write_in v.read_in buffer.at enough

      long : k ≡ length front
      long = sym (length-tabulate k (λ i. buffer.at (wrap m (b.read_index + i))))

      cut : (f : ℕ → List A → List A) → f k held ≡ f (length front) (front ++ back)
      cut f = ap₂ f long split

      taken : take (length front) (front ++ back) ≡ front
      taken = take-append front back

      dropped : drop (length front) (front ++ back) ≡ back
      dropped = drop-append front back

  module _ (output : Array A) (k : ℕ) where
    -- The output array after the copy.
    abbrev copied : ℕ → A
    copied =
        if ltb m (b.read_index + k)
        then overlay buffer.at 0 (k - (m - b.read_index))
            (overlay buffer.at b.read_index (m - b.read_index) output.at 0) (m - b.read_index)
        else overlay buffer.at b.read_index k output.at 0

    copied-taken :
        k ≤ used b.write_index b.read_index m
        → (i : ℕ) → i < k
        → copied (0 + i) ≡ buffer.at (wrap m (b.read_index + i))
    copied-taken enough i lt = ground arith

    copied-rest : k ≤ used b.write_index b.read_index m → (i : ℕ) → k ≤ i → copied i ≡ output.at i
    copied-rest enough i le = ground arith

  module _ (output : Array A) (count : ℕ) (inside : count ≤ output.size) where
    abbrev share : ℕ
    share = min count (used b.write_index b.read_index m)

    dequeue_n-ok :
        used b.write_index b.read_index m ≢ 0
        → dequeue_n output count buffer m b
          ≡ ok (share, record { size = output.size; at = copied output share }, moved share)
    unfolding dequeue_n
    dequeue_n-ok filled = elim (Bool-cases (ltb m (b.read_index + share))) [
      | inl two ↦
          let half : Array A = record {
            size = output.size;
            at = overlay buffer.at b.read_index (m - b.read_index) output.at 0;
          } in
          rw
            (
              avail-eq,
              some_held,
              sum,
              two,
              rest,
              part (ground arith),
              taken (ground arith),
              copy-ok buffer b.read_index (m - b.read_index) output 0 (ground arith) (ground arith),
              copy-ok buffer 0 (share - (m - b.read_index)) half (m - b.read_index) (ground arith)
                  (ground arith),
            )
            (ground arith)
      | inr one ↦
          rw
            (
              avail-eq,
              some_held,
              sum,
              one,
              copy-ok buffer b.read_index share output 0 (ground arith) (ground arith),
            )
            (ground arith)
    ]
      where
        some_held : (used b.write_index b.read_index m == 0) ≡ false
        some_held = ground arith

        sum : add_size b.read_index share ≡ b.read_index + share
        sum = ground arith

        rest : sub_size m b.read_index ≡ m - b.read_index
        rest = ground arith

        part :
            m ≤ b.read_index + share
            → sub_size share (m - b.read_index) ≡ share - (m - b.read_index)
        part past = ground arith

        taken :
            m ≤ b.read_index + share → sub_size (b.read_index + share) m ≡ b.read_index + share - m
        taken past = ground arith

    -- The outcome of `dequeue_n`: the oldest elements in front of the output array, the rest of it
    -- unchanged, and what is left in the ring buffer.
    pub record DequeuedList (n : ℕ) (output' : Array A) (b' : RingbufferBase) : Type 0 where
      pub answer : n ≡ min count (length held)
      pub items : slice output' 0 n ≡ (Queue.dequeue_list held count).0
      pub left : contents m buffer.at b' ≡ (Queue.dequeue_list held count).1
      pub rest : (i : ℕ) → n ≤ i → output'.at i ≡ output.at i
      pub same_size : output'.size ≡ output.size
      pub valid : IsValid b' buffer.size m

    queue-share : Queue.dequeue_list held count ≡ (take share held, drop share held)
    unfolding Queue.dequeue_list
    queue-share = rw (length-contents m buffer.at b)

    nothing-left : used b.write_index b.read_index m ≡ 0 → DequeuedList 0 output b
    nothing-left drained = record {
      answer = omega (arith, length-contents m buffer.at b);
      items = rw queue-share (sym (ap (λ n. take n held) empty));
      left = rw queue-share (sym (ap (λ n. drop n held) empty));
      rest = λ i le. refl;
      same_size = refl;
      valid = v;
    }
      where
        empty : share ≡ 0
        empty = omega arith

    -- `dequeue_n` moves the oldest elements, `count` of them or all there are, to the front of the
    -- output array in order, returns their number, and leaves the others; nothing behind them in
    -- the output array changes, and the invariant is kept.
    -- The ring buffer is valid, and the output array has room for `count` elements.
    pub dequeue_n_refines :
        Returns (λ (n, output', b'). DequeuedList n output' b') (dequeue_n output count buffer m b)
    unfolding dequeue_n
    dequeue_n_refines = elim (Bool-cases (used b.write_index b.read_index m == 0)) [
      | inl nothing ↦ ((0, output, b), rw (avail-eq, nothing), nothing-left (ground arith))
      | inr filled ↦ (
        (share, record { size = output.size; at = copied output share }, moved share),
        dequeue_n-ok (ground arith),
        record {
          answer = rw (length-contents m buffer.at b);
          items = rw queue-share (
              tabulate_ext share (λ i. copied output share (0 + i))
                (λ i. buffer.at (wrap m (b.read_index + i)))
                (copied-taken output share (omega arith))
              ∙ (queue-gives share (omega arith)).0);
          left = rw queue-share (queue-gives share (omega arith)).1;
          rest = copied-rest output share (omega arith);
          same_size = refl;
          valid = ground arith;
        },
      )
    ]
