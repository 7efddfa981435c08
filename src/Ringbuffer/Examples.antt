-- ===== src/Ringbuffer/Examples.antt =====
-- The theorems on the ring buffer at concrete buffers: one of four cells that wraps round and holds
-- 13 and 10, and a run of both threads.
use boost_lockfree.Prelude.{
  ℕ, ◌+◌, ◌≤◌, ◌<◌, ◌≡◌, ◌≢◌, refl, arith, [], ◌∷◌, ◌++◌, false, ok, Returns, length, tabulate,
}
use boost_lockfree.Array.{Array, update}
use boost_lockfree.Ringbuffer.{
  RingbufferBase, next_index, is_empty, enqueue_n, dequeue_n, dequeue_to,
}
use boost_lockfree.Ringbuffer.Bounds.{IsValid, next_index-wrap}
use boost_lockfree.Ringbuffer.Contents.{contents}
use boost_lockfree.Ringbuffer.EnqueueBulk.{EnqueuedList, enqueue_n_refines}
use boost_lockfree.Ringbuffer.DequeueBulk.{DequeuedList, dequeue_n_refines}
use boost_lockfree.Ringbuffer.DequeueTo.{dequeue_to_overwrites, store_list}
use boost_lockfree.Ringbuffer.Queue
use boost_lockfree.Ringbuffer.Queue.{put, get}
use boost_lockfree.Ringbuffer.Dynamic.{construct}
use boost_lockfree.Ringbuffer.Dynamic.Client.{run, run_refines}
use boost_lockfree.Ringbuffer.Spsc.{
  System, Producer, Consumer, Produce, Consume, Reach, produce, consume, start, later,
}
use boost_lockfree.Ringbuffer.Spsc.Invariant.{held}
use boost_lockfree.Ringbuffer.Spsc.Safety.{fifo_order, capacity, no_data_race}

abbrev four : Array ℕ
four = record { size = 4; at = λ i. 10 + i }

abbrev input : Array ℕ
input = record { size = 5; at = λ i. 100 + i }

-- two elements, round the end
abbrev base : RingbufferBase
base = record { write_index = 1; read_index = 3 }

base-IsValid : IsValid base 4 4
base-IsValid = record {
  write_in = omega arith;
  read_in = omega arith;
  storage = omega arith;
  small = omega arith;
}

enqueue_n_refines_example :
    Returns
      (λ (n, buffer', b'). EnqueuedList input four 4 base 0 3 n buffer' b')
      (enqueue_n input 3 four 4 base)
enqueue_n_refines_example = enqueue_n_refines input four 4 base base-IsValid 3 (omega arith)

inside : 5 ≤ input.size
inside = omega arith

dequeue_n_refines_example :
    Returns
      (λ (n, output', b'). DequeuedList four 4 base base-IsValid input 5 inside n output' b')
      (dequeue_n input 5 four 4 base)
dequeue_n_refines_example = dequeue_n_refines four 4 base base-IsValid input 5 inside

dequeue_to_overwrites_example :
    Returns
      (λ (count, d', b'). tabulate count d' ≢ contents 4 four.at base)
      (dequeue_to store_list (λ i. 0) four 4 base)
dequeue_to_overwrites_example =
    dequeue_to_overwrites four 4 base base-IsValid (λ i. 0) (omega arith) (λ e. omega (arith, e))

run_refines_example :
    run (construct 2 four.at) (put 7 ∷ put 8 ∷ get 0 ∷ get 1 ∷ [])
    ≡ ok (Queue.run 1 [] (put 7 ∷ put 8 ∷ get 0 ∷ get 1 ∷ []))
run_refines_example =
    run_refines 2 four.at (put 7 ∷ put 8 ∷ get 0 ∷ get 1 ∷ []) (omega arith) (omega arith)

-- The producer has enqueued 7 into a buffer of three cells and is about to write 8; the consumer is
-- about to read the first cell.
abbrev both_inside : System ℕ
both_inside = record {
  shared = record {
    write_index = 1;
    read_index = 0;
    cells = update four.at 0 7;
    sent = 7 ∷ [];
    received = [];
  };
  producer = Producer.checked 8 1 2;
  consumer = Consumer.indexed 1 0;
}

next-0 : next_index 0 3 ≡ ok 1
next-0 = next_index-wrap 0 3 (omega arith) (omega arith)

next-1 : next_index 1 3 ≡ ok 2
next-1 = next_index-wrap 1 3 (omega arith) (omega arith)

both_inside-Reach : Reach 3 four.at both_inside
both_inside-Reach =
    later
      (later
        (later
          (later
            (later
              (later
                (later (later start (produce (Produce.load_write 7)))
                  (produce (Produce.room next-0 (omega arith))))
                (produce Produce.put))
              (produce Produce.publish))
            (consume Consume.load_write))
          (consume Consume.load_read))
        (produce (Produce.load_write 8)))
      (produce (Produce.room next-1 (omega arith)))

fifo_order_example : 7 ∷ [] ≡ [] ++ held 3 both_inside.shared
fifo_order_example = fifo_order (omega arith) (omega arith) both_inside-Reach

capacity_example : length both_inside.shared.sent ≤ length both_inside.shared.received + 2
capacity_example = capacity (omega arith) (omega arith) both_inside-Reach

not_empty : is_empty 1 0 ≡ false
unfolding is_empty
not_empty = refl

no_data_race_example : (◌≢◌ {A = ℕ} 1 0) × (1 < 3) × (0 < 3)
no_data_race_example =
    no_data_race (omega arith) (omega arith) both_inside-Reach refl refl not_empty

-- A buffer of two cells holds 7, and the producer comes with 8.
abbrev before_full : System ℕ
before_full = record {
  shared = record {
    write_index = 1;
    read_index = 0;
    cells = update four.at 0 7;
    sent = 7 ∷ [];
    received = [];
  };
  producer = Producer.loaded 8 1;
  consumer = Consumer.idle;
}

before_full-Reach : Reach 2 four.at before_full
before_full-Reach =
    later
      (later
        (later
          (later (later start (produce (Produce.load_write 7))) (
            produce (Produce.room (next_index-wrap 0 2 (omega arith) (omega arith)) (omega arith))))
          (produce Produce.put))
        (produce Produce.publish))
      (produce (Produce.load_write 8))
