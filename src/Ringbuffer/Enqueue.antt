-- ===== src/Ringbuffer/Enqueue.antt =====
-- `enqueue` of one element implements that of the bounded queue.
use boost_lockfree.Prelude.{
  ℕ, ◌+◌, ◌-◌, ◌<◌, ◌≡◌, ◌≢◌, refl, arith, ◌++◌, ltb, Bool, true, false, ◌==◌, ok, Returns,
  Bool-cases, inl, inr, length, [], ◌∷◌,
}
use boost_lockfree.Array.{Array, update, write-ok}
use boost_lockfree.Ringbuffer.{RingbufferBase, enqueue}
use boost_lockfree.Ringbuffer.Bounds.{IsValid, wrap, next_index-wrap}
use boost_lockfree.Ringbuffer.Contents.{contents, length-contents, contents_grow, Holds}
use boost_lockfree.Ringbuffer.Queue

module _ {ℓ} {A : Type ℓ} where
  -- The outcome of `enqueue`: the answer and the new contents are the queue's.
  pub record Enqueued (t : A) (buffer : Array A) (m : ℕ) (b : RingbufferBase)
      (out : Bool × Array A × RingbufferBase) : Type ℓ where
    pub answer : out.0 ≡ (Queue.enqueue (m - 1) (contents m buffer.at b) t).0
    pub holds : Holds buffer m (Queue.enqueue (m - 1) (contents m buffer.at b) t).1 out.1 out.2

  module _ (t : A) (buffer : Array A) (m : ℕ) (b : RingbufferBase)
      (v : IsValid b buffer.size m) where
    -- The ring buffer is full when one more place would make the indices meet.
    enqueue-full :
        wrap m (b.write_index + 1) ≡ b.read_index
        → (enqueue t buffer m b ≡ ok (false, buffer, b)) × (length (contents m buffer.at b) ≡ m - 1)
    unfolding enqueue
    enqueue-full full = (
      rw (next_index-wrap b.write_index m v.write_in v.small) (ground arith),
      ground (arith, length-contents m buffer.at b),
    )

    abbrev after : Array A × RingbufferBase
    after = (
      record { size = buffer.size; at = update buffer.at b.write_index t },
      record { write_index = wrap m (b.write_index + 1); read_index = b.read_index },
    )

    enqueue-room :
        wrap m (b.write_index + 1) ≢ b.read_index
        → (enqueue t buffer m b ≡ ok (true, after.0, after.1))
          × (length (contents m buffer.at b) < m - 1)
          × (contents m after.0.at after.1 ≡ contents m buffer.at b ++ t ∷ [])
    unfolding enqueue
    enqueue-room room = (
      rw (next_index-wrap b.write_index m v.write_in v.small)
          (rw different (rw (write-ok buffer b.write_index t (omega arith)))),
      ground (arith, length-contents m buffer.at b),
      contents_grow m b.write_index b.read_index 1 v.write_in v.read_in buffer.at after.0.at
          (λ i. t) (ground arith) (λ i lt. ground arith) (λ i lt. ground arith),
    )
      where
        different : (wrap m (b.write_index + 1) == b.read_index) ≡ false
        different = ground arith

    -- `enqueue` answers as the bounded queue does and appends `t` exactly when it answers true; the
    -- invariant is kept.
    -- The ring buffer is valid.
    pub enqueue_refines : Returns (Enqueued t buffer m b) (enqueue t buffer m b)
    unfolding Queue.enqueue
    enqueue_refines = elim (Bool-cases (wrap m (b.write_index + 1) == b.read_index)) [
      | inl full ↦
          let (e, len) = enqueue-full (ground arith) in
          let test : ltb (length (contents m buffer.at b)) (m - 1) ≡ false = ground arith in
          (
            (false, buffer, b),
            e,
            record {
              answer = rw test;
              holds = record { items = rw test; valid = v; same_size = refl };
            },
          )
      | inr room ↦
          let (e, len, grown) = enqueue-room (ground arith) in
          let test : ltb (length (contents m buffer.at b)) (m - 1) ≡ true = ground arith in
          (
            (true, after.0, after.1),
            e,
            record {
              answer = rw test;
              holds = record { items = rw test grown; valid = ground arith; same_size = refl };
            },
          )
    ]
