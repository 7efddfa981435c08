-- ===== src/Ringbuffer/Dynamic/Client.antt =====
-- A client that makes any sequence of calls on a `ringbuffer<T, 0>` cannot tell it from the bounded
-- queue.
use boost_lockfree.Prelude.{
  ℕ, ◌-◌, ◌^◌, ◌≤◌, ◌<◌, ◌≡◌, refl, ap, arith, Bool, List, [], ◌∷◌, Run, ok, ◌>>=◌,
}
use boost_lockfree.Ringbuffer.{init}
use boost_lockfree.Ringbuffer.Bounds.{IsValid}
use boost_lockfree.Ringbuffer.Contents.{contents}
use boost_lockfree.Ringbuffer.Enqueue.{enqueue_refines}
use boost_lockfree.Ringbuffer.Dequeue.{dequeue_refines}
use boost_lockfree.Ringbuffer.Dynamic.{Ringbuffer, construct, enqueue, dequeue}
use boost_lockfree.Ringbuffer.Queue
use boost_lockfree.Ringbuffer.Queue.{Op, put, get, Reply, was_put, was_got}

module _ {A : Type 0} where
  -- The calls in order, with what each returns.
  pub run : Ringbuffer A → List (Op A) → Run (List (Reply A))
  run self [] = ok []
  run self (put t ∷ ops) = do
    (done, self') ← enqueue t self
    replies ← run self' ops
    ok (was_put done ∷ replies)
  run self (get ret ∷ ops) = do
    (done, x, self') ← dequeue ret self
    replies ← run self' ops
    ok (was_got done x ∷ replies)

  abbrev held : Ringbuffer A → List A
  held self = contents self.max_size self.array.at self.base

  abbrev Valid : Ringbuffer A → Type 0
  Valid self = IsValid self.base self.array.size self.max_size

  run-Valid :
      (ops : List (Op A)) (self : Ringbuffer A)
      → Valid self
      → run self ops ≡ ok (Queue.run (self.max_size - 1) (held self) ops)
  unfolding run Queue.run enqueue dequeue
  run-Valid [] self v = refl
  run-Valid (put t ∷ ops) self v =
      let (out, e, after) = enqueue_refines t self.array self.max_size self.base v in
      let self' : Ringbuffer A = record self { base = out.2; array = out.1 } in
      rw (e, run-Valid ops self' after.holds.valid, after.holds.items, after.answer)
  run-Valid (get ret ∷ ops) self v =
      let (out, e, after) = dequeue_refines ret self.array self.max_size self.base v in
      let self' : Ringbuffer A = record self { base = out.2 } in
      rw (e, run-Valid ops self' after.valid)
        (ap
          (λ (q : Bool × A × List A). ok (was_got q.0 q.1 ∷ Queue.run (self.max_size - 1) q.2 ops))
          after.answer)

  -- Any sequence of `enqueue` and `dequeue` calls on a fresh `ringbuffer<T, 0>` returns, and
  -- answers as an empty queue for `max_size - 1` elements would; `max_size` is positive and at most
  -- `2 ^ 63`.
  pub run_refines :
      (max_size : ℕ) (cells : ℕ → A) (ops : List (Op A))
      → 0 < max_size
      → max_size ≤ 2 ^ 63
      → run (construct max_size cells) ops ≡ ok (Queue.run (max_size - 1) [] ops)
  unfolding construct init
  run_refines max_size cells ops some_room small =
      run-Valid ops (construct max_size cells) (omega arith)
