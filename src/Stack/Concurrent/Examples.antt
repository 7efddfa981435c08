-- ===== src/Stack/Concurrent/Examples.antt =====
-- The theorems on the concurrent stack at a run of two threads: thread 0 pushes 7, thread 1 reads the
-- top, thread 0 begins to push 8, and thread 1 takes 7 off.
use boost_lockfree.Prelude.{
  some, ℕ, ◌≤◌, ◌<◌, ◌≡◌, ◌≢◌, refl, arith, Bool, true, false, ◌==◌, ◌||◌, List,
}
use boost_lockfree.TaggedPtr.Compressed
use boost_lockfree.TaggedPtr.Compressed.Laws.{ops}
use boost_lockfree.Memory.{Node, null}
use boost_lockfree.Memory.Links.{occurrences, Links, contents}
use boost_lockfree.Stack.Concurrent.{
  System, Reach, start, later, pick, construct, load_push, link, push_done, load_pop, read_next,
  pop_done, fetch,
}
use boost_lockfree.Stack.Concurrent.Invariant.{Replays}
use boost_lockfree.Stack.Concurrent.Safety.{
  node_of, stack_linearizable, pop_returns_due, stack_nodes_unshared,
}

abbrev pool : ℕ → Bool
pool b = (b == 4096) || (b == 4112)

abbrev cells : ℕ → Node ops.Rep ℕ
cells b = record { next = ops.make null 0; value = 0 }

abbrev after_push : (s : System ops.Rep ℕ) × Reach ops pool cells s
after_push = (
  _,
  later
      (later (later (later start (pick 0 (construct 7 4096 refl))) (pick 0 load_push))
        (pick 0 link))
      (pick 0 (push_done ((ops.equal_iff _ _).1 refl))),
)

top_not_null : ops.get_ptr (ops.make 4096 (ops.get_tag (ops.make null 0))) ≢ null
top_not_null e =
    omega (arith, ops.get_ptr-make 4096 (ops.get_tag (ops.make null 0)) (omega arith), e)

abbrev both : (s : System ops.Rep ℕ) × Reach ops pool cells s
both = (
  _,
  later
      (later (later after_push.1 (pick 1 (load_pop top_not_null))) (pick 0 (construct 8 4112 refl)))
      (pick 1 read_next),
)

abbrev taken_off : (s : System ops.Rep ℕ) × Reach ops pool cells s
taken_off =
    (_, later (later both.1 (pick 1 (pop_done ((ops.equal_iff _ _).1 refl)))) (pick 1 fetch))

null_out : pool null ≡ false
null_out = refl

pool-small : (b : ℕ) → pool b ≡ true → b < ops.ptr_limit
pool-small b h = ground (arith, h)

stack_linearizable_example :
    (nodes : List ℕ) × Links ops taken_off.0.shared.cells (ops.get_ptr taken_off.0.shared.tos) nodes
    × ((b : ℕ) → occurrences b nodes ≤ 1)
    × Replays taken_off.0.shared.log (contents ops taken_off.0.shared.cells nodes)
stack_linearizable_example =
    stack_linearizable ops pool cells null_out pool-small taken_off.0 taken_off.1 (omega arith)

abbrev top : ℕ
top = ops.get_ptr (ops.make 4096 (ops.get_tag (ops.make null 0)))

abbrev value_at_top : ℕ
value_at_top = (taken_off.0.shared.cells top).value

pop_returns_due_example : value_at_top ≡ 7
unfolding Compressed.make Compressed.get_ptr Compressed.get_tag Compressed.set_ptr
    Compressed.pack_ptr Compressed.extract_ptr Compressed.extract_tag
pop_returns_due_example =
    pop_returns_due ops pool cells null_out pool-small taken_off.0 taken_off.1 (omega arith) 1 top
      value_at_top 7 refl

stack_nodes_unshared_example :
    (4112 ≢ null)
    × ((j b : ℕ) → 0 ≢ j → node_of (taken_off.0.pc j) ≡ some b → 4112 ≢ b)
    × (nodes : List ℕ) × Links ops taken_off.0.shared.cells
        (ops.get_ptr taken_off.0.shared.tos)
        nodes
    × (occurrences 4112 nodes ≡ 0)
stack_nodes_unshared_example =
    stack_nodes_unshared ops pool cells null_out pool-small taken_off.0 taken_off.1 (omega arith) 0
      4112 refl
