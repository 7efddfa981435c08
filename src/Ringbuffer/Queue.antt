-- ===== src/Ringbuffer/Queue.antt =====
-- The specification of a ring buffer: a queue of at most `cap` elements, oldest first. The
-- functions are total and know nothing of indices.
use boost_lockfree.Prelude.{
  ℕ, ◌-◌, min, Bool, true, false, ltb, if◌then◌else◌, List, [], ◌∷◌, ◌++◌, length, take, drop,
}

module _ {ℓ} {A : Type ℓ} where
  unfoldable pub enqueue : ℕ → List A → A → Bool × List A
  enqueue cap q t = if ltb (length q) cap then (true, q ++ t ∷ []) else (false, q)

  -- as many of `ts` as there is room for, and their number
  unfoldable pub enqueue_list : ℕ → List A → List A → ℕ × List A
  enqueue_list cap q ts =
      (min (length ts) (cap - length q), q ++ take (min (length ts) (cap - length q)) ts)

  -- what the caller finds in `ret`, which keeps its value when the queue is empty
  unfoldable pub dequeue : List A → A → Bool × A × List A
  dequeue [] ret = (false, ret, [])
  dequeue (x ∷ q) ret = (true, x, q)

  -- the oldest elements, `count` of them or all that there are, and what is left
  unfoldable pub dequeue_list : List A → ℕ → List A × List A
  dequeue_list q count = (take (min count (length q)) q, drop (min count (length q)) q)

-- What a client can ask of a ring buffer, and what it is told.
pub data Op (A : Type 0) : Type 0 where
  put : A → Op A
  get : A → Op A

pub data Reply (A : Type 0) : Type 0 where
  was_put : Bool → Reply A
  was_got : Bool → A → Reply A

-- The answers to a client's calls in order.
unfoldable pub run : {A : Type 0} → ℕ → List A → List (Op A) → List (Reply A)
run cap q [] = []
run cap q (put t ∷ ops) = let (done, q') = enqueue cap q t in was_put done ∷ run cap q' ops
run cap q (get ret ∷ ops) = let (done, x, q') = dequeue q ret in was_got done x ∷ run cap q' ops
