-- ===== src/Atomic/Fences/Arm.antt =====
-- boost/atomic/detail/gcc-armv6+.hpp: the fences. `dmb`, or its coprocessor instruction, is a full
-- barrier.
use boost_lockfree.Prelude.{Bool, if◌then◌else◌, List, [], ◌∷◌, ◌++◌}
use boost_lockfree.Atomic.Order.{MemoryOrder, relaxed, acquire, release, acq_rel, seq_cst, consume}
use boost_lockfree.Atomic.Fences.{Instruction, FencedClass}

unfoldable pub fence_before : MemoryOrder → List Instruction
fence_before release = Instruction.full ∷ []
fence_before acq_rel = Instruction.full ∷ []
fence_before seq_cst = Instruction.full ∷ []
fence_before relaxed = []
fence_before acquire = []
fence_before consume = []

unfoldable pub fence_after : MemoryOrder → List Instruction
fence_after acquire = Instruction.full ∷ Instruction.compiler ∷ []
fence_after acq_rel = Instruction.full ∷ Instruction.compiler ∷ []
fence_after seq_cst = Instruction.full ∷ Instruction.compiler ∷ []
fence_after consume = Instruction.compiler ∷ []
fence_after relaxed = []
fence_after release = []

unfoldable pub load : MemoryOrder → List Instruction
load order = Instruction.load ∷ fence_after order

unfoldable pub store : MemoryOrder → List Instruction
store order = fence_before order ++ Instruction.store ∷ []

unfoldable pub compare_exchange_weak : MemoryOrder → MemoryOrder → Bool → List Instruction
compare_exchange_weak success_order failure_order success =
    fence_before success_order
    ++ Instruction.update
      ∷ (if success then fence_after success_order else fence_after failure_order)

-- `fetch_add_var`, `fetch_inc` and `fetch_dec`: the loop ends in a branch.
unfoldable pub fetch : MemoryOrder → List Instruction
fetch order = fence_before order ++ Instruction.update ∷ Instruction.branch ∷ fence_after order

abbrev pub atomic_arm : FencedClass
atomic_arm = record {
  load = load;
  store = store;
  compare_exchange_weak = compare_exchange_weak;
  fetch = fetch;
}
