-- ===== src/Atomic/Fences/Alpha.antt =====
-- boost/atomic/detail/gcc-alpha.hpp: the fences. `mb` is a full barrier.
use boost_lockfree.Prelude.{Bool, if◌then◌else◌, List, [], ◌∷◌, ◌++◌}
use boost_lockfree.Atomic.Order.{MemoryOrder, relaxed, acquire, release, acq_rel, seq_cst, consume}
use boost_lockfree.Atomic.Fences.{Instruction, FencedClass}

unfoldable pub fence_before : MemoryOrder → List Instruction
fence_before consume = Instruction.full ∷ []
fence_before release = Instruction.full ∷ []
fence_before acq_rel = Instruction.full ∷ []
fence_before seq_cst = Instruction.full ∷ []
fence_before relaxed = []
fence_before acquire = []

unfoldable pub fence_after : MemoryOrder → List Instruction
fence_after acquire = Instruction.full ∷ []
fence_after acq_rel = Instruction.full ∷ []
fence_after seq_cst = Instruction.full ∷ []
fence_after relaxed = []
fence_after release = []
fence_after consume = []

unfoldable pub thread_fence : MemoryOrder → List Instruction
thread_fence acquire = Instruction.full ∷ []
thread_fence consume = Instruction.full ∷ []
thread_fence release = Instruction.full ∷ []
thread_fence acq_rel = Instruction.full ∷ []
thread_fence seq_cst = Instruction.full ∷ []
thread_fence relaxed = []

unfoldable pub load : MemoryOrder → List Instruction
load order = Instruction.load ∷ fence_after order

unfoldable pub store : MemoryOrder → List Instruction
store order = fence_before order ++ Instruction.store ∷ []

-- `desired` holds whether the conditional store has stored.
unfoldable pub compare_exchange_weak : MemoryOrder → MemoryOrder → Bool → List Instruction
compare_exchange_weak success_order failure_order desired =
    fence_before success_order
    ++ Instruction.update
      ∷ (if desired then fence_after success_order else fence_after failure_order)

-- `fetch_add_var`, `fetch_inc` and `fetch_dec`
unfoldable pub fetch : MemoryOrder → List Instruction
fetch order = fence_before order ++ Instruction.update ∷ fence_after order

abbrev pub atomic_alpha : FencedClass
atomic_alpha = record {
  load = load;
  store = store;
  compare_exchange_weak = compare_exchange_weak;
  fetch = fetch;
}
