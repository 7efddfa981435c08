-- ===== src/Ringbuffer/Spsc/Safety.antt =====
-- What holds in every state that the producer and the consumer can reach.
use native.Mathlib.Decide.{ℕ_discrete}
use boost_lockfree.Prelude.{
  ℕ, Bool-cases, inl, inr, ◌+◌, ◌-◌, ◌^◌, ◌≤◌, ◌<◌, ◌≡◌, ◌≢◌, subst, arith, false, ◌++◌, ok, length,
  add_size, ◌%◌, ap, length-append,
}
use boost_lockfree.Ringbuffer.{next_index, is_empty}
use boost_lockfree.Ringbuffer.Bounds.{wrap, next_index-eq-mod}
use boost_lockfree.Ringbuffer.Contents.{length-contents}
use boost_lockfree.Ringbuffer.Spsc.{Shared, Producer, Consumer, Produce, Consume, System, Reach}
use boost_lockfree.Ringbuffer.Spsc.Invariant.{base, held, Inv, ProducerInv, ConsumerInv, next-eq}
use boost_lockfree.Ringbuffer.Spsc.Preservation.{Reach-Inv}

module _ {A : Type 0} {m : ℕ} {cells : ℕ → A} {s : System A} (some_room : 0 < m)
    (small : m ≤ 2 ^ 63) (r : Reach m cells s) where
  -- In every interleaving the elements dequeued so far, followed by those that stand in the buffer,
  -- are the elements enqueued so far, in order: none is lost, doubled, changed or overtaken.
  -- The size `m` is positive and at most `2 ^ 63`.
  pub fifo_order : s.shared.sent ≡ s.shared.received ++ held m s.shared
  fifo_order = (Reach-Inv m some_room small r).shared.fifo

  held-le : length (held m s.shared) ≤ m - 1
  held-le = ground (
    arith,
    length-contents m s.shared.cells (base m s.shared),
    (Reach-Inv m some_room small r).shared,
  )

  -- The producer is never more than `m - 1` elements ahead of the consumer, over the whole run: that
  -- many more have been enqueued than dequeued at most.
  -- The size `m` is positive and at most `2 ^ 63`.
  pub capacity : length s.shared.sent ≤ length s.shared.received + (m - 1)
  capacity =
      omega
        (arith, ap length fifo_order, length-append s.shared.received (held m s.shared), held-le)

  -- No data race on a cell: when the producer is about to write a cell and the consumer about to
  -- read one, these are different cells inside the buffer.
  -- The size `m` is positive and at most `2 ^ 63`.
  pub no_data_race :
      {t : A} {w next w' i : ℕ}
      → s.producer ≡ Producer.checked t w next
      → s.consumer ≡ Consumer.indexed w' i
      → is_empty w' i ≡ false
      → (w ≢ i) × (w < m) × (i < m)
  unfolding is_empty
  no_data_race {t} {w} {next} {w'} {i} at_write at_read filled =
      ground (arith, known.shared, own, loaded)
    where
      known : Inv m s.shared s.producer s.consumer
      known = Reach-Inv m some_room small r

      own : ProducerInv m s.shared (Producer.checked t w next)
      own = subst (ProducerInv m s.shared) at_write known.producer

      loaded : ConsumerInv m s.shared (Consumer.indexed w' i)
      loaded = subst (ConsumerInv m s.shared) at_read known.consumer

  -- `enqueue` reports a full buffer only when `m - 1` elements stand in it at that moment.
  -- The size `m` is positive and at most `2 ^ 63`.
  pub full_is_full :
      {t : A} {w next : ℕ}
      → s.producer ≡ Producer.loaded t w
      → next_index w m ≡ ok next
      → next ≡ s.shared.read_index
      → length (held m s.shared) ≡ m - 1
  full_is_full {t} {w} {next} at_test e meet =
      ground (arith, known.shared, moved, length-contents m s.shared.cells (base m s.shared))
    where
      known : Inv m s.shared s.producer s.consumer
      known = Reach-Inv m some_room small r

      own : w ≡ s.shared.write_index
      own = subst (ProducerInv m s.shared) at_test known.producer

      moved : next ≡ wrap m (s.shared.write_index + 1)
      moved = rw (← own) (next-eq m w next e (rw own known.shared.write_in) small)

-- How many steps of its own the producer needs at most to leave `enqueue`.
abbrev pub producer_pending : {A : Type 0} → Producer A → ℕ
producer_pending Producer.idle = 0
producer_pending (Producer.loaded t w) = 3
producer_pending (Producer.checked t w next) = 2
producer_pending (Producer.written t next) = 1

abbrev pub consumer_pending : {A : Type 0} → Consumer A → ℕ
consumer_pending Consumer.idle = 0
consumer_pending (Consumer.loaded w) = 3
consumer_pending (Consumer.indexed w r) = 2
consumer_pending (Consumer.fetched v r) = 1

module _ {A : Type 0} (m : ℕ) (s : Shared A) (some_room : 0 < m) where
  produce-loaded :
      (t : A) (w : ℕ)
      → (s' : Shared A) × (p' : Producer A) × Produce m s (Producer.loaded t w) s' p'
  produce-loaded t w =
      let e = next_index-eq-mod w m some_room in
      elim (ℕ_discrete (add_size w 1 % m) s.read_index) [
        | yes meet ↦ (s, Producer.idle, Produce.full e meet)
        | no apart ↦ (s, Producer.checked t w (add_size w 1 % m), Produce.room e apart)
      ]

  -- `enqueue` is wait-free: whatever the consumer has done, a producer inside of it can take a
  -- step, and every step of its own brings it nearer to the end, which is at most three steps off.
  -- The size is positive.
  pub enqueue_wait_free :
      (p : Producer A)
      → 0 < producer_pending p
      → ((s' : Shared A) × (p' : Producer A) × Produce m s p s' p')
        × ((s' : Shared A) (p' : Producer A)
            → Produce m s p s' p'
            → producer_pending p' < producer_pending p)
  enqueue_wait_free p h = (next_step p h, nearer p h)
    where
      next_step :
          (p : Producer A)
          → 0 < producer_pending p
          → (s' : Shared A) × (p' : Producer A) × Produce m s p s' p'
      next_step Producer.idle h = absurd (omega arith)
      next_step (Producer.loaded t w) h = produce-loaded t w
      next_step (Producer.checked t w next) h = (_, _, Produce.put)
      next_step (Producer.written t next) h = (_, _, Produce.publish)

      nearer :
          (p : Producer A)
          → 0 < producer_pending p
          → (s' : Shared A) (p' : Producer A) → Produce m s p s' p'
          → producer_pending p' < producer_pending p
      nearer p h s' p' (Produce.load_write t) = absurd (omega arith)
      nearer p h s' p' (Produce.full e k) = omega arith
      nearer p h s' p' (Produce.room e k) = omega arith
      nearer p h s' p' Produce.put = omega arith
      nearer p h s' p' Produce.publish = omega arith

  consume-indexed :
      (w r : ℕ) → (s' : Shared A) × (c' : Consumer A) × Consume m s (Consumer.indexed w r) s' c'
  consume-indexed w r = elim (Bool-cases (is_empty w r)) [
    | inl none_held ↦ (s, Consumer.idle, Consume.drained none_held)
    | inr some_held ↦ (s, Consumer.fetched (s.cells r) r, Consume.fetch some_held)
  ]

  -- `dequeue` is wait-free: whatever the producer has done, a consumer inside of it can take a
  -- step, and every step of its own brings it nearer to the end, which is at most three steps off.
  -- The size is positive.
  pub dequeue_wait_free :
      (c : Consumer A)
      → 0 < consumer_pending c
      → ((s' : Shared A) × (c' : Consumer A) × Consume m s c s' c')
        × ((s' : Shared A) (c' : Consumer A)
            → Consume m s c s' c'
            → consumer_pending c' < consumer_pending c)
  dequeue_wait_free c h = (next_step c h, nearer c h)
    where
      next_step :
          (c : Consumer A)
          → 0 < consumer_pending c
          → (s' : Shared A) × (c' : Consumer A) × Consume m s c s' c'
      next_step Consumer.idle h = absurd (omega arith)
      next_step (Consumer.loaded w) h = (_, _, Consume.load_read)
      next_step (Consumer.indexed w r) h = consume-indexed w r
      next_step (Consumer.fetched v r) h = (_, _, Consume.release (next_index-eq-mod r m some_room))

      nearer :
          (c : Consumer A)
          → 0 < consumer_pending c
          → (s' : Shared A) (c' : Consumer A) → Consume m s c s' c'
          → consumer_pending c' < consumer_pending c
      nearer c h s' c' Consume.load_write = absurd (omega arith)
      nearer c h s' c' Consume.load_read = omega arith
      nearer c h s' c' (Consume.drained e) = omega arith
      nearer c h s' c' (Consume.fetch e) = omega arith
      nearer c h s' c' (Consume.release e) = omega arith
