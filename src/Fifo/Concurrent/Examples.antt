-- ===== src/Fifo/Concurrent/Examples.antt =====
-- The theorems on the concurrent fifo at a run of three threads: thread 0 links a node with 7, thread 1
-- finds the tail behind and moves it on before it takes 7 off, thread 0 builds
-- a node with 8, and thread 2 finds the fifo empty.
use boost_lockfree.Prelude.{
  some, ℕ, ◌≤◌, ◌<◌, ◌≡◌, ◌≢◌, refl, arith, Bool, ◌==◌, ◌||◌, List, [], ◌∷◌, ◌++◌,
}
use boost_lockfree.TaggedPtr.Dcas
use boost_lockfree.TaggedPtr.Dcas.Laws.{ops}
use boost_lockfree.Memory.{Node, null}
use boost_lockfree.Memory.Links.{occurrences, Links, contents}
use boost_lockfree.Fifo.Concurrent.{
  Pc, System, Reach, start, later, pick, construct, load_tail, load_next, check_tail, link,
  call_dequeue, read_head, read_tail, read_next, check_head, advance_tail, read_value, dequeue_done,
  swing_failed, return_false,
}
use boost_lockfree.Fifo.Concurrent.Invariant.{Replays}
use boost_lockfree.Fifo.Concurrent.Preservation.{Window}
use boost_lockfree.Fifo.Concurrent.Runs.{IsPool}
use boost_lockfree.Fifo.Concurrent.Safety.{
  fifo_linearizable, dequeue_returns_due, dequeue_false-Replays, fifo_nodes_unshared, node_of,
}
use boost_lockfree.Fifo.Concurrent.Fair.{Inevitable}
use boost_lockfree.Fifo.Concurrent.Alone.{Promised, fifo_finishes_alone}
use boost_lockfree.Fifo.Concurrent.Order.{values_in, values_out, fifo_in_order}

abbrev pool : ℕ → Bool
pool b = (b == 4096) || (b == 4112)

abbrev cells : ℕ → Node ops.Rep ℕ
cells b = record { next = ops.make null 0; value = 0 }

pool-IsPool : IsPool ops pool 4080
pool-IsPool = record {
  null_out = refl;
  d-ne_null = omega arith;
  d-lt = omega arith;
  small = λ b h. ground (arith, h);
}

abbrev Run : Type 0
Run = (s : System ops.Rep ℕ) × Reach ops pool 4080 cells s

-- Thread 0 has linked its node, and not yet moved the tail.
abbrev has_linked : Run
unfolding Dcas.make Dcas.get_ptr Dcas.get_tag Dcas.set_ptr Dcas.equal
has_linked = (
  _,
  later
      (later
        (later (later (later start (pick 0 (construct 7 4096 refl))) (pick 0 load_tail))
          (pick 0 load_next))
        (pick 0 (check_tail refl)))
      (pick 0 (link refl refl)),
)

abbrev has_advanced : Run
unfolding has_linked Dcas.make Dcas.get_ptr Dcas.get_tag Dcas.set_ptr Dcas.equal
has_advanced = (
  _,
  later
      (later
        (later
          (later (later (later has_linked.1 (pick 1 call_dequeue)) (pick 1 read_head))
            (pick 1 read_tail))
          (pick 1 read_next))
        (pick 1 (check_head refl)))
      (pick 1 (advance_tail refl (omega arith) refl)),
)

abbrev has_dequeued : Run
unfolding has_linked has_advanced Dcas.make Dcas.get_ptr Dcas.get_tag Dcas.set_ptr Dcas.equal
has_dequeued = (
  _,
  later
      (later
        (later
          (later (later (later has_advanced.1 (pick 1 read_head)) (pick 1 read_tail))
            (pick 1 read_next))
          (pick 1 (check_head refl)))
        (pick 1 (read_value (omega arith) (omega arith))))
      (pick 1 (dequeue_done refl)),
)

abbrev has_found_empty : Run
unfolding has_linked has_advanced has_dequeued Dcas.make Dcas.get_ptr Dcas.get_tag Dcas.set_ptr
    Dcas.equal
has_found_empty = (
  _,
  later
      (later
        (later
          (later
            (later
              (later
                (later (later has_dequeued.1 (pick 0 (swing_failed refl)))
                  (pick 0 (construct 8 4112 refl)))
                (pick 2 call_dequeue))
              (pick 2 read_head))
            (pick 2 read_tail))
          (pick 2 read_next))
        (pick 2 (check_head refl)))
      (pick 2 (return_false refl refl)),
)

abbrev end : System ops.Rep ℕ
unfolding has_linked has_advanced has_dequeued has_found_empty Dcas.make Dcas.get_ptr Dcas.get_tag
    Dcas.set_ptr Dcas.equal
end = has_found_empty.0

end-Window : Window ops cells end.shared
unfolding has_linked has_advanced has_dequeued has_found_empty end Dcas.make Dcas.get_ptr
    Dcas.get_tag Dcas.set_ptr Dcas.equal
end-Window b = omega arith

fifo_linearizable_example :
    (dummy : ℕ) × (nodes : List ℕ) × Links ops end.shared.cells
      (ops.get_ptr end.shared.head)
      (dummy ∷ nodes)
    × ((b : ℕ) → occurrences b (dummy ∷ nodes) ≤ 1)
    × (0 < occurrences (ops.get_ptr end.shared.tail) (dummy ∷ nodes))
    × Replays end.shared.log (contents ops end.shared.cells nodes)
unfolding end
fifo_linearizable_example =
    fifo_linearizable ops pool 4080 cells pool-IsPool end has_found_empty.1 end-Window

fifo_in_order_example :
    (dummy : ℕ) × (nodes : List ℕ) × Links ops end.shared.cells
      (ops.get_ptr end.shared.head)
      (dummy ∷ nodes)
    × (values_in end.shared.log ≡ values_out end.shared.log ++ contents ops end.shared.cells nodes)
unfolding end
fifo_in_order_example =
    fifo_in_order ops pool 4080 cells pool-IsPool end has_found_empty.1 end-Window

dequeue_returns_due_example : (end.shared.cells 4096).value ≡ 7
unfolding has_linked has_advanced has_dequeued has_found_empty end Dcas.make Dcas.get_ptr
    Dcas.get_tag Dcas.set_ptr Dcas.equal
dequeue_returns_due_example =
    dequeue_returns_due ops pool 4080 cells pool-IsPool end has_found_empty.1 end-Window 1 4080
      (end.shared.cells 4096).value 7 refl

dequeue_false-Replays_example : Replays end.shared.log []
unfolding has_linked has_advanced has_dequeued has_found_empty end Dcas.make Dcas.get_ptr
    Dcas.get_tag Dcas.set_ptr Dcas.equal
dequeue_false-Replays_example =
    dequeue_false-Replays ops pool 4080 cells pool-IsPool end has_found_empty.1 end-Window 2
      end.shared.log refl

fifo_nodes_unshared_example :
    ((j b : ℕ) → 0 ≢ j → node_of (end.pc j) ≡ some b → 4112 ≢ b)
    × (dummy : ℕ) × (nodes : List ℕ) × Links ops end.shared.cells
        (ops.get_ptr end.shared.head)
        (dummy ∷ nodes)
    × (occurrences 4112 (dummy ∷ nodes) ≡ 0)
unfolding has_linked has_advanced has_dequeued has_found_empty end Dcas.make Dcas.get_ptr
    Dcas.get_tag Dcas.set_ptr Dcas.equal
fifo_nodes_unshared_example =
    fifo_nodes_unshared ops pool 4080 cells pool-IsPool end has_found_empty.1 end-Window 0 4112 refl

fifo_finishes_alone_example :
    Inevitable ops 0 (Promised ops end.shared (Pc.built 4112)) 9 end.shared (Pc.built 4112)
unfolding has_linked has_advanced has_dequeued has_found_empty end Dcas.make Dcas.get_ptr
    Dcas.get_tag Dcas.set_ptr Dcas.equal
fifo_finishes_alone_example =
    fifo_finishes_alone ops pool 4080 cells pool-IsPool end has_found_empty.1 end-Window 0 refl
