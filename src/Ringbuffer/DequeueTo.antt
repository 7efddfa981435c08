-- ===== src/Ringbuffer/DequeueTo.antt =====
-- `dequeue_to`, the bulk dequeue to an output iterator: what a caller gets from an iterator that
-- appends, and from one that points into an array.
use mathlib.Core.List.{head?}
use boost_lockfree.Prelude.{
  ℕ, zero, suc, ◌+◌, ◌-◌, ◌≤◌, ◌<◌, ◌≡◌, ◌≢◌, refl, sym, ap, ap₂, ◌∙◌, arith, List, ◌++◌, ◌==◌,
  false, true, ok, Returns, ltb, Bool-cases, inl, inr, ◌⊎◌, length, [], ◌∷◌, tabulate, add_size,
  sub_size, if◌then◌else◌, some, tabulate_ext, tabulate-add,
}
use boost_lockfree.Array.{Array, read_slice-ok, slice}
use boost_lockfree.Ringbuffer.{RingbufferBase, dequeue_to}
use boost_lockfree.Ringbuffer.Bounds.{IsValid, used, wrap}
use boost_lockfree.Ringbuffer.Contents.{contents, length-contents, contents-nil}
use boost_lockfree.Ringbuffer.DequeueBulk.{moved, avail-eq}

module _ {A : Type 0} (buffer : Array A) (m : ℕ) (b : RingbufferBase) (v : IsValid b buffer.size m)
    {D : Type 0} (assign : List A → D → D) (d : D) where
  -- What becomes of the destination, in terms of the two sections.
  abbrev sections : D
  sections =
      if ltb m (b.read_index + used b.write_index b.read_index m)
      then assign (slice buffer 0 (used b.write_index b.read_index m - (m - b.read_index)))
          (assign (slice buffer b.read_index (m - b.read_index)) d)
      else assign (slice buffer b.read_index (used b.write_index b.read_index m)) d

  dequeue_to-ok :
      used b.write_index b.read_index m ≢ 0
      → dequeue_to assign d buffer m b
        ≡ ok (
          used b.write_index b.read_index m,
          sections,
          moved buffer m b v (used b.write_index b.read_index m),
        )
  unfolding dequeue_to
  dequeue_to-ok filled = elim (Bool-cases (ltb m (b.read_index + n))) [
    | inl two ↦
        rw
          (
            avail-eq buffer m b v,
            some_held,
            sum,
            two,
            rest,
            part (ground arith),
            taken (ground arith),
            read_slice-ok buffer b.read_index (m - b.read_index) (ground arith),
            read_slice-ok buffer 0 (n - (m - b.read_index)) (ground arith),
          )
          (ground arith)
    | inr one ↦
        rw
          (
            avail-eq buffer m b v,
            some_held,
            sum,
            one,
            read_slice-ok buffer b.read_index n (ground arith),
          )
          (ground arith)
  ]
    where
      n : ℕ
      n = used b.write_index b.read_index m

      some_held : (n == 0) ≡ false
      some_held = ground arith

      sum : add_size b.read_index n ≡ b.read_index + n
      sum = ground arith

      rest : sub_size m b.read_index ≡ m - b.read_index
      rest = ground arith

      part : m ≤ b.read_index + n → sub_size n (m - b.read_index) ≡ n - (m - b.read_index)
      part past = ground arith

      taken : m ≤ b.read_index + n → sub_size (b.read_index + n) m ≡ b.read_index + n - m
      taken past = ground arith

  held-sections :
      m ≤ b.read_index + used b.write_index b.read_index m
      → contents m buffer.at b
        ≡ slice buffer b.read_index (m - b.read_index)
          ++ slice buffer 0 (used b.write_index b.read_index m - (m - b.read_index))
  held-sections past =
      ap (λ k. tabulate k cell) whole
      ∙ tabulate-add upper lower cell
      ∙ ap₂ ◌++◌
          (tabulate_ext upper cell (λ i. buffer.at (b.read_index + i))
            λ i lt. ap buffer.at (ground arith))
          (tabulate_ext lower (λ i. cell (upper + i)) (λ i. buffer.at (0 + i))
            λ i lt. ap buffer.at (ground arith))
    where
      cell : ℕ → A
      cell i = buffer.at (wrap m (b.read_index + i))

      upper : ℕ
      upper = m - b.read_index

      lower : ℕ
      lower = used b.write_index b.read_index m - (m - b.read_index)

      whole : used b.write_index b.read_index m ≡ upper + lower
      whole = ground arith

  held-section :
      b.read_index + used b.write_index b.read_index m ≤ m
      → contents m buffer.at b ≡ slice buffer b.read_index (used b.write_index b.read_index m)
  held-section within = tabulate_ext _ _ _ (λ i lt. ap buffer.at (ground arith))

  abbrev n : ℕ
  n = used b.write_index b.read_index m

  -- An iterator that appends, as `std::back_inserter` or a stream iterator does, gets the whole
  -- contents, oldest first; the number of elements is returned, the ring buffer is empty
  -- afterwards, and the invariant is kept.
  -- The ring buffer is valid.
  pub dequeue_to_appends :
      assign [] d ≡ d
      → ((xs ys : List A) → assign ys (assign xs d) ≡ assign (xs ++ ys) d)
      → Returns
          (λ (count, d', b').
            (count ≡ length (contents m buffer.at b))
            × (d' ≡ assign (contents m buffer.at b) d)
            × (contents m buffer.at b' ≡ [])
            × IsValid b' buffer.size m)
          (dequeue_to assign d buffer m b)
  unfolding dequeue_to
  dequeue_to_appends nothing appends = elim (Bool-cases (n == 0)) [
    | inl drained ↦
        let none_held = contents-nil m buffer.at b (ground arith) in
        (
          (0, d, b),
          rw (avail-eq buffer m b v, drained),
          (rw none_held, rw none_held (sym nothing), none_held, v),
        )
    | inr filled ↦ (
      (n, sections, moved buffer m b v n),
      dequeue_to-ok (ground arith),
      (
        sym (length-contents m buffer.at b),
        whole (Bool-cases (ltb m (b.read_index + n))),
        contents-nil m buffer.at (moved buffer m b v n) (ground arith),
        ground arith,
      ),
    )
  ]
    where
      whole :
          (ltb m (b.read_index + n) ≡ true) ⊎ (ltb m (b.read_index + n) ≡ false)
          → sections ≡ assign (contents m buffer.at b) d
      whole (inl two) =
          rw two (appends _ _ ∙ sym (ap (λ t. assign t d) (held-sections (ground arith))))
      whole (inr one) = rw one (sym (ap (λ t. assign t d) (held-section (ground arith))))

-- What `std::copy` through a pointer to the first element of an array leaves in the array.
abbrev pub store_list : {A : Type 0} → List A → (ℕ → A) → ℕ → A
store_list [] d j = d j
store_list (x ∷ xs) d zero = x
store_list (x ∷ xs) d (suc j) = store_list xs (λ i. d (i + 1)) j

eq_of_some : {A : Type 0} {x y : A} → some x ≡ some y → x ≡ y
eq_of_some e = cc

head-tabulate : {A : Type 0} (n : ℕ) (f : ℕ → A) → n ≢ 0 → head? (tabulate n f) ≡ some (f 0)
head-tabulate zero f h = absurd (h refl)
head-tabulate (suc n) f h = refl

store_list-tabulate :
    {A : Type 0} (n : ℕ) (f d : ℕ → A) → n ≢ 0 → store_list (tabulate n f) d 0 ≡ f 0
store_list-tabulate zero f d h = absurd (h refl)
store_list-tabulate (suc n) f d h = refl

module _ {A : Type 0} (buffer : Array A) (m : ℕ) (b : RingbufferBase)
    (v : IsValid b buffer.size m) where
  -- A pointer as the output iterator: when the contents go round the end of the buffer, the second
  -- section overwrites the first. If the first cell of the buffer and the oldest element differ,
  -- then what the caller finds at the pointer is not the contents.
  -- The ring buffer is valid.
  pub dequeue_to_overwrites :
      (d : ℕ → A)
      → m < b.read_index + used b.write_index b.read_index m
      → buffer.at 0 ≢ buffer.at b.read_index
      → Returns
          (λ (count, d', b'). tabulate count d' ≢ contents m buffer.at b)
          (dequeue_to store_list d buffer m b)
  dequeue_to_overwrites d past differ = (
    (n buffer m b v store_list d, sections buffer m b v store_list d, moved buffer m b v _),
    dequeue_to-ok buffer m b v store_list d (ground arith),
    λ same. differ (eq_of_some (sym first ∙ ap head? same ∙ oldest)),
  )
    where
      count : ℕ
      count = used b.write_index b.read_index m

      found : ℕ → A
      found = sections buffer m b v store_list d

      two : ltb m (b.read_index + count) ≡ true
      two = ground arith

      overwritten : found 0 ≡ buffer.at 0
      overwritten = rw two (
          store_list-tabulate (count - (m - b.read_index)) (λ i. buffer.at (0 + i)) _
            (ground arith))

      first : head? (tabulate count found) ≡ some (buffer.at 0)
      first = head-tabulate count found (ground arith) ∙ ap some overwritten

      oldest : head? (contents m buffer.at b) ≡ some (buffer.at b.read_index)
      oldest =
          head-tabulate count (λ i. buffer.at (wrap m (b.read_index + i))) (ground arith)
          ∙ ap (λ i. some (buffer.at i)) (ground arith)
