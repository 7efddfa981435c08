-- ===== src/Ringbuffer/Dequeue.antt =====
-- `dequeue` of one element implements that of the bounded queue.
use boost_lockfree.Prelude.{
  ℕ, ◌+◌, ◌≡◌, ◌≢◌, ap, ◌∙◌, arith, Bool, true, false, ◌==◌, Returns, Bool-cases, inl, inr, ◌∷◌,
}
use boost_lockfree.Array.{Array, read-ok}
use boost_lockfree.Ringbuffer.{RingbufferBase, is_empty, dequeue}
use boost_lockfree.Ringbuffer.Bounds.{IsValid, wrap, next_index-wrap}
use boost_lockfree.Ringbuffer.Contents.{contents, contents-nil, contents_shrink}
use boost_lockfree.Ringbuffer.Queue

module _ {ℓ} {A : Type ℓ} (ret : A) (buffer : Array A) (m : ℕ) (b : RingbufferBase)
    (v : IsValid b buffer.size m) where
  -- The outcome of `dequeue`: the answer, `ret` and the new contents are the queue's.
  pub record Dequeued (out : Bool × A × RingbufferBase) : Type ℓ where
    pub answer :
        (out.0, out.1, contents m buffer.at out.2) ≡ Queue.dequeue (contents m buffer.at b) ret
    pub valid : IsValid out.2 buffer.size m

  abbrev next : RingbufferBase
  next = record { write_index = b.write_index; read_index = wrap m (b.read_index + 1) }

  contents-next :
      b.write_index ≢ b.read_index
      → contents m buffer.at b ≡ buffer.at b.read_index ∷ contents m buffer.at next
  contents-next filled =
      contents_shrink m b.write_index b.read_index 1 v.write_in v.read_in buffer.at (ground arith)
      ∙ ap (λ i. buffer.at i ∷ contents m buffer.at next) (ground arith)

  -- `dequeue` answers as the queue does: on an empty buffer it answers false and changes nothing,
  -- else it takes the oldest element; the invariant is kept.
  -- The ring buffer is valid.
  pub dequeue_refines : Returns Dequeued (dequeue ret buffer m b)
  unfolding dequeue is_empty Queue.dequeue
  dequeue_refines = elim (Bool-cases (b.write_index == b.read_index)) [
    | inl drained ↦ (
      (false, ret, b),
      rw drained,
      record { answer = rw (contents-nil m buffer.at b (ground arith)); valid = v },
    )
    | inr filled ↦ (
      (true, buffer.at b.read_index, next),
      rw (
        filled,
        read-ok buffer b.read_index (omega arith),
        next_index-wrap b.read_index m v.read_in v.small,
      ),
      record { answer = rw (contents-next (ground arith)); valid = ground arith },
    )
  ]
