-- ===== src/Freelist/Concurrent/Examples.antt =====
-- The theorems on the concurrent pool at a run of two threads: thread 0 reserves a node, thread 1 reads
-- the pool, thread 0 takes the node and gives it back, so that the pool looks as before, and thread 1
-- must try again; then it takes the node, while thread 0 gets another from the allocator.
use boost_lockfree.Prelude.{some, ℕ, ◌+◌, ◌≤◌, ◌≡◌, ◌≢◌, refl, arith, true, List}
use boost_lockfree.TaggedPtr.Dcas
use boost_lockfree.TaggedPtr.Dcas.Laws.{ops}
use boost_lockfree.Memory.{Node, null}
use boost_lockfree.Memory.Links.{occurrences, Links}
use boost_lockfree.Freelist.Concurrent.{
  Place, System, Step, Reach, start, later, pick, reserve_one, load_give, link, give, load_pool,
  read_next, take, hand_out, call_deallocate, take_again, load_empty, allocate_node,
}
use boost_lockfree.Freelist.Concurrent.Invariant.{Replays}
use boost_lockfree.Freelist.Concurrent.Refines.{PoolStep, free_in, pool_refines_set}
use boost_lockfree.Freelist.Concurrent.Safety.{
  times_given, times_taken, node_of, pool_linearizable, allocate_unshared,
}

abbrev cells : ℕ → Node ops.Rep ℕ
cells b = record { next = ops.make null 0; value = 0 }

abbrev Run : Type 0
Run = (s : System ops.Rep ℕ) × Reach ops true cells s

-- The node 4096 is in the pool, and thread 1 has read the pool and the link of the node.
abbrev has_read : Run
unfolding Dcas.make Dcas.get_ptr Dcas.get_tag Dcas.set_ptr Dcas.equal
has_read = (
  _,
  later
      (later
        (later
          (later
            (later (later start (pick 0 (reserve_one 4096 refl (omega arith) (omega arith))))
              (pick 0 load_give))
            (pick 0 link))
          (pick 0 (give refl)))
        (pick 1 (load_pool (omega arith))))
      (pick 1 read_next),
)

-- Thread 0 has taken the node and given it back.
abbrev has_returned : Run
unfolding has_read Dcas.make Dcas.get_ptr Dcas.get_tag Dcas.set_ptr Dcas.equal
has_returned = (
  _,
  later
      (later
        (later
          (later
            (later
              (later
                (later (later has_read.1 (pick 0 (load_pool (omega arith)))) (pick 0 read_next))
                (pick 0 (take refl)))
              (pick 0 hand_out))
            (pick 0 (call_deallocate 4096 refl)))
          (pick 0 load_give))
        (pick 0 link))
      (pick 0 (give refl)),
)

-- Thread 1 has failed, and read the pool again.
abbrev has_failed : Run
unfolding has_read has_returned Dcas.make Dcas.get_ptr Dcas.get_tag Dcas.set_ptr Dcas.equal
has_failed =
    (_, later (later has_returned.1 (pick 1 (take_again (omega arith)))) (pick 1 read_next))

abbrev taking : (t : System ops.Rep ℕ) × Step ops true has_failed.0 t
unfolding has_read has_returned has_failed Dcas.make Dcas.get_ptr Dcas.get_tag Dcas.set_ptr
    Dcas.equal
taking = (_, pick 1 (take refl))

abbrev has_taken : Run
unfolding has_read has_returned has_failed taking Dcas.make Dcas.get_ptr Dcas.get_tag Dcas.set_ptr
    Dcas.equal
has_taken = (
  _,
  later (later (later has_failed.1 taking.1) (pick 0 (load_empty refl)))
      (pick 0 (allocate_node 4112 refl refl (omega arith) (omega arith))),
)

abbrev end : System ops.Rep ℕ
unfolding has_read has_returned has_failed taking has_taken Dcas.make Dcas.get_ptr Dcas.get_tag
    Dcas.set_ptr Dcas.equal
end = has_taken.0

pool_linearizable_example :
    (nodes : List ℕ) × Links ops end.shared.cells (ops.get_ptr end.shared.pool) nodes
    × ((b : ℕ) → occurrences b nodes ≤ 1)
    × Replays end.shared.log nodes
    × ((b : ℕ) → times_given b end.shared.log ≡ times_taken b end.shared.log + occurrences b nodes)
unfolding end has_taken taking has_failed has_returned has_read Dcas.make Dcas.get_ptr Dcas.get_tag
    Dcas.set_ptr Dcas.equal
pool_linearizable_example = pool_linearizable ops true cells end has_taken.1 (omega arith)

allocate_unshared_example :
    (4112 ≢ null)
    × (end.shared.place 4112 ≢ Place.out)
    × ((j b : ℕ) → 0 ≢ j → node_of (end.pc j) ≡ some b → 4112 ≢ b)
    × (nodes : List ℕ) × Links ops end.shared.cells (ops.get_ptr end.shared.pool) nodes
    × (occurrences 4112 nodes ≡ 0)
unfolding end has_taken taking has_failed has_returned has_read Dcas.make Dcas.get_ptr Dcas.get_tag
    Dcas.set_ptr Dcas.equal
allocate_unshared_example =
    allocate_unshared ops true cells end has_taken.1 (omega arith) 0 4112 refl

pool_refines_set_example :
    PoolStep
      (free_in ops has_failed.0.shared)
      (free_in ops taking.0.shared)
      has_failed.0.shared.log
      taking.0.shared.log
unfolding taking has_failed has_returned has_read Dcas.make Dcas.get_ptr Dcas.get_tag Dcas.set_ptr
    Dcas.equal
pool_refines_set_example =
    pool_refines_set ops true cells has_failed.0 taking.0 has_failed.1 taking.1 (omega arith)
