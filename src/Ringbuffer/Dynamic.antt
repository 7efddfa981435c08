-- ===== src/Ringbuffer/Dynamic.antt =====
-- `ringbuffer<T, 0>` of boost/lockfree/ringbuffer.hpp: the size is given to the constructor.
pub mod Client
use boost_lockfree.Prelude.{ℕ, Bool, List, Run, ok, ◌>>=◌}
use boost_lockfree.Array.{Array}
use boost_lockfree.Ringbuffer as Base
use boost_lockfree.Ringbuffer.{RingbufferBase}

pub record Ringbuffer (A : Type 0) : Type 0 where
  pub base : RingbufferBase
  pub max_size : ℕ
  pub array : Array A

-- The elements of `new T[max_size]` are whatever `cells` says.
unfoldable pub construct : {A : Type 0} → ℕ → (ℕ → A) → Ringbuffer A
construct max_size cells = record {
  base = Base.init;
  max_size = max_size;
  array = record { size = max_size; at = cells };
}

module _ {A : Type 0} where
  unfoldable pub enqueue : A → Ringbuffer A → Run (Bool × Ringbuffer A)
  enqueue t self = do
    (done, array, base) ← Base.enqueue t self.array self.max_size self.base
    ok (done, record self { base = base; array = array })

  unfoldable pub enqueue_n : Array A → ℕ → Ringbuffer A → Run (ℕ × Ringbuffer A)
  enqueue_n t size self = do
    (n, array, base) ← Base.enqueue_n t size self.array self.max_size self.base
    ok (n, record self { base = base; array = array })

  unfoldable pub enqueue_array : Array A → Ringbuffer A → Run (ℕ × Ringbuffer A)
  unfolding enqueue_n
  enqueue_array t self = enqueue_n t t.size self

  unfoldable pub enqueue_range : Array A → ℕ → ℕ → Ringbuffer A → Run (ℕ × Ringbuffer A)
  enqueue_range input begin end self = do
    (last, array, base) ← Base.enqueue_range input begin end self.array self.max_size self.base
    ok (last, record self { base = base; array = array })

  unfoldable pub dequeue : A → Ringbuffer A → Run (Bool × A × Ringbuffer A)
  dequeue ret self = do
    (done, ret', base) ← Base.dequeue ret self.array self.max_size self.base
    ok (done, ret', record self { base = base })

  unfoldable pub dequeue_n : Array A → ℕ → Ringbuffer A → Run (ℕ × Array A × Ringbuffer A)
  dequeue_n ret size self = do
    (n, ret', base) ← Base.dequeue_n ret size self.array self.max_size self.base
    ok (n, ret', record self { base = base })

  unfoldable pub dequeue_array : Array A → Ringbuffer A → Run (ℕ × Array A × Ringbuffer A)
  unfolding dequeue_n
  dequeue_array t self = dequeue_n t t.size self

  unfoldable pub dequeue_to :
      {D : Type 0} → (List A → D → D) → D → Ringbuffer A → Run (ℕ × D × Ringbuffer A)
  dequeue_to assign d self = do
    (n, d', base) ← Base.dequeue_to assign d self.array self.max_size self.base
    ok (n, d', record self { base = base })
