-- ===== src/Stack/Examples.antt =====
-- The theorems on the tagged pointers, the freelist and the stack at concrete values: a stack of
-- numbers over the compressed pointers.
use boost_lockfree.Prelude.{
  ℕ, ◌+◌, ◌*◌, ◌≡◌, refl, arith, true, false, [], ◌∷◌, Returns, List, ok, ◌>>=◌,
}
use boost_lockfree.TaggedPtr.Dcas as Dcas
use boost_lockfree.TaggedPtr.Dcas.Laws.{make_fields_dcas}
use boost_lockfree.TaggedPtr.Compressed.Laws.{ops}
use boost_lockfree.Memory.{Allocator, null}
use boost_lockfree.Freelist.{no_memory}
use boost_lockfree.Stack.{Stack, push, push_unsafe, pop, pop_unsafe, empty, destroy}
use boost_lockfree.Stack.Push.{Holds, Pushed, push_unsafe_refines}
use boost_lockfree.Stack.Agree.{push-agree, pop-agree}
use boost_lockfree.Freelist.Release.{GivenBack}
use boost_lockfree.Stack.Destroy.{stack_destroy-GivenBack}
use boost_lockfree.Stack as Code
use boost_lockfree.Stack.Spec
use boost_lockfree.Stack.Spec.{View, put, take}
use boost_lockfree.Stack.Client.{Call, ops_of, run, client_refines}

make_fields_dcas_example :
    (Dcas.get_ptr (Dcas.make 4096 7) ≡ 4096) × (Dcas.get_tag (Dcas.make 4096 7) ≡ 7)
make_fields_dcas_example = make_fields_dcas 4096 7 (omega arith)

-- Sixteen bytes for a node, from address 4096 on, with storage for 1000 of them.
abbrev heap : Allocator ops ℕ
heap = record {
  addr = λ i. 4096 + 16 * i;
  garbage = λ i. record { next = ops.make null 0; value = 0 };
  supply = 1000;
  addr-ne-null = λ i left e. omega (arith, left, e);
  addr-lt = λ i left. omega (arith, left);
  addr-injective = λ i j left left' e. omega (arith, e);
}

abbrev new_stack : Stack ops.Rep ℕ
new_stack = record {
  list = record { mem = no_memory heap; pool = ops.make null 0 };
  tos = ops.make null 0;
}

abbrev new_view : View ℕ
new_view = record { items = []; spare = 0 }

new_stack-Holds : Holds heap new_stack new_view
new_stack-Holds = record {
  used = [];
  free = [];
  inv = record {
    chain = ops.get_ptr-make null 0 (omega arith);
    pool = record {
      chain = ops.get_ptr-make null 0 (omega arith);
      apart = λ a. omega arith;
      known = λ a there. absurd (omega (arith, there));
      within = omega arith;
    };
  };
  view = refl;
}

first_push : Returns (Pushed heap true 7 new_view new_stack) (push_unsafe heap true 7 new_stack)
first_push = push_unsafe_refines heap true 7 new_stack new_view new_stack-Holds (omega arith)

abbrev one_view : View ℕ
one_view = record { items = 7 ∷ []; spare = 0 }

-- The stack after one push.
abbrev one_stack : Stack ops.Rep ℕ
one_stack = first_push.0.1

one_stack-Holds : Holds heap one_stack one_view
unfolding boost_lockfree.Stack.Spec.push
one_stack-Holds = first_push.2.1

push-agree_example :
    push heap true (true ∷ true ∷ []) (true ∷ []) 8 one_stack ≡ push_unsafe heap true 8 one_stack
push-agree_example =
    push-agree heap true (true ∷ true ∷ []) (true ∷ []) 8 one_stack one_view one_stack-Holds

pop-agree_example : pop ops (true ∷ []) (true ∷ true ∷ []) 0 one_stack ≡ pop_unsafe ops 0 one_stack
pop-agree_example =
    pop-agree heap (true ∷ []) (true ∷ true ∷ []) 0 one_stack one_view one_stack-Holds

-- two pushes on a fixed pool of one node, then two pops
abbrev calls : List (Call ℕ)
calls =
    record { op = put 7; failures = true ∷ []; pool_failures = [] }
    ∷ record { op = put 8; failures = []; pool_failures = true ∷ [] }
    ∷ record { op = take 0; failures = true ∷ true ∷ []; pool_failures = [] }
    ∷ record { op = take 1; failures = []; pool_failures = [] }
    ∷ []

client_refines_example :
    (Code.construct heap 1 (no_memory heap) >>= run heap false calls)
    ≡ ok (Spec.run false (record { items = []; spare = 1 }) (ops_of calls))
client_refines_example = client_refines heap false 1 calls (omega arith)

stack_destroy-GivenBack_example : Returns (GivenBack heap 1) (destroy ops 2 2 0 one_stack)
stack_destroy-GivenBack_example =
    stack_destroy-GivenBack heap (7 ∷ []) 0 2 2 0 one_stack one_stack-Holds (omega arith)
      (omega arith)
