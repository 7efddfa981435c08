-- ===== src/Fifo/Examples.antt =====
-- The theorems on the fifo at concrete values: a fifo of numbers over the compressed pointers.
use boost_lockfree.Prelude.{
  ◌==◌, if◌then◌else◌, ℕ, ◌+◌, ◌*◌, ◌≤◌, ◌≡◌, refl, arith, true, false, List, [], ◌∷◌, ok, ◌>>=◌,
  Returns, none,
}
use boost_lockfree.TaggedPtr.Compressed.Laws.{ops}
use boost_lockfree.Memory as Heap
use boost_lockfree.Memory.{Allocator, null}
use boost_lockfree.Freelist.{no_memory}
use boost_lockfree.Fifo.{Fifo, construct, enqueue, enqueue_unsafe, dequeue, dequeue_unsafe, destroy}
use boost_lockfree.Fifo.Spec
use boost_lockfree.Fifo.Spec.{View}
use boost_lockfree.Fifo.Invariant.{Holds}
use boost_lockfree.Fifo.Spec.{put, take}
use boost_lockfree.Fifo.Agree.{enqueue-agree}
use boost_lockfree.Fifo.AgreeDequeue.{dequeue-agree}
use boost_lockfree.Fifo.Client.{Call, ops_of, run, fifo_client_refines}
use boost_lockfree.Freelist.Release.{GivenBack}
use boost_lockfree.Fifo.Destroy.{fifo_destroy-GivenBack}
use boost_lockfree.Fifo.Pointers.{
  Reset, overwrite, Dequeued, dequeue_auto_ptr, dequeue_shared_ptr, dequeue_scoped_ptr,
  smart_ptr_dequeues,
}
use boost_lockfree.Fifo.Enqueue.{enqueue_unsafe_refines}

-- Sixteen bytes for a node, from address 4096 on, with storage for 1000 of them.
abbrev heap : Allocator ops ℕ
heap = record {
  addr = λ i. 4096 + 16 * i;
  garbage = λ i. record { next = ops.make null 0; value = 0 };
  supply = 1000;
  addr-ne-null = λ i left e. omega (arith, left, e);
  addr-lt = λ i left. omega (arith, left);
  addr-injective = λ i j left left' e. omega (arith, e);
}

-- A fifo of one node, the dummy.
abbrev dummy : Fifo ops.Rep ℕ
dummy = record {
  list = record {
    mem = record {
      cells = Heap.put (λ _. none) 4096 (record { next = ops.make null 0; value = 0 });
      allocated = 1;
    };
    pool = ops.make null 0;
  };
  head = ops.make 4096 0;
  tail = ops.make 4096 0;
}

abbrev dummy_view : View ℕ
dummy_view = record { items = []; spare = 0 }

dummy-Holds : Holds heap dummy dummy_view
dummy-Holds = record {
  front = [];
  tail_at = 4096;
  tail_value = 0;
  free = [];
  inv = record {
    before = ops.get_ptr-make 4096 0 (omega arith);
    at_tail = ops.get_ptr-make 4096 0 (omega arith);
    tail_ne = λ e. omega (arith, e);
    last = ops.make null 0;
    held = refl;
    last_null = ops.get_ptr-make null 0 (omega arith);
    pool = record {
      chain = ops.get_ptr-make null 0 (omega arith);
      apart = λ a. ground arith;
      known = λ a there. (0, omega arith, ground arith);
      within = omega arith;
    };
  };
  view = refl;
}

first_enqueue :
    Returns
      (λ (done, self').
        (done ≡ (Spec.enqueue {A = ℕ} true 7 dummy_view).0)
        × Holds heap self' (Spec.enqueue {A = ℕ} true 7 dummy_view).1
        × (self'.list.mem.allocated ≤ 2))
      (enqueue_unsafe heap true 1 7 dummy)
first_enqueue = enqueue_unsafe_refines heap true 0 7 dummy dummy_view dummy-Holds (omega arith)

-- The fifo with one value behind the dummy.
abbrev one_fifo : Fifo ops.Rep ℕ
one_fifo = first_enqueue.0.1

abbrev one_view : View ℕ
one_view = record { items = 7 ∷ []; spare = 0 }

one_fifo-Holds : Holds heap one_fifo one_view
unfolding Spec.enqueue
one_fifo-Holds = first_enqueue.2.1

enqueue-agree_example :
    enqueue heap true (true ∷ true ∷ []) (true ∷ []) 8 one_fifo
    ≡ enqueue_unsafe heap true 1 8 one_fifo
enqueue-agree_example =
    enqueue-agree heap true (true ∷ true ∷ []) (true ∷ []) 0 8 one_fifo one_view one_fifo-Holds
      (omega (arith, first_enqueue.2.2))

dequeue-agree_example :
    dequeue ops (true ∷ []) (true ∷ true ∷ []) 0 one_fifo ≡ dequeue_unsafe ops 1 0 one_fifo
dequeue-agree_example =
    dequeue-agree heap (true ∷ true ∷ []) one_fifo (true ∷ []) 0 0 one_view one_fifo-Holds

-- Two calls of `enqueue` on a fixed pool of one node, and two of `dequeue`, with spurious failures.
abbrev calls : List (Call ℕ)
calls =
    record { op = put 7; failures = true ∷ []; pool_failures = [] }
    ∷ record { op = put 8; failures = []; pool_failures = true ∷ [] }
    ∷ record { op = take 0; failures = true ∷ true ∷ []; pool_failures = [] }
    ∷ record { op = take 0; failures = []; pool_failures = [] }
    ∷ []

fifo_client_refines_example :
    (construct heap false [] 0 1 (no_memory heap) >>= run heap false calls)
    ≡ ok (Spec.run false (record { items = []; spare = 1 }) (ops_of calls))
fifo_client_refines_example = fifo_client_refines heap false [] 0 1 calls (omega arith)

fifo_destroy-GivenBack_example : Returns (GivenBack heap 2) (destroy ops 4 (true ∷ []) 0 one_fifo)
fifo_destroy-GivenBack_example =
    fifo_destroy-GivenBack heap (7 ∷ []) 0 4 (true ∷ []) 0 one_fifo one_fifo-Holds (omega arith)

-- A pointer held, with the number of its owners: the last one deletes it.
abbrev reset : Reset (ℕ × ℕ)
reset p (held, owners) = ((p, 1), (if owners == 1 then held ∷ [] else []))

smart_ptr_dequeues_example :
    Returns
      (Dequeued heap (true ∷ []) [] reset (96, 2) one_view)
      (dequeue_auto_ptr ops (true ∷ []) [] reset (96, 2) one_fifo)
    × Returns
        (Dequeued heap (true ∷ []) [] reset (96, 2) one_view)
        (dequeue_shared_ptr ops (true ∷ []) [] reset (96, 2) one_fifo)
    × Returns
        (Dequeued heap (true ∷ []) [] overwrite 96 one_view)
        (dequeue_scoped_ptr ops (true ∷ []) [] 96 one_fifo)
smart_ptr_dequeues_example =
    smart_ptr_dequeues heap (true ∷ []) [] one_fifo reset (96, 2) 96 one_view one_fifo-Holds
