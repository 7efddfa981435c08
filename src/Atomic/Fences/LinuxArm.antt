-- ===== src/Atomic/Fences/LinuxArm.antt =====
-- boost/atomic/detail/linux-arm.hpp: the fences. `kernel_dmb` is a full barrier; the compare and swap
-- of the kernel is one update, and its memory orders go unused.
use boost_lockfree.Prelude.{List, [], ◌∷◌, ◌++◌}
use boost_lockfree.Atomic.Order.{MemoryOrder, relaxed, acquire, release, acq_rel, seq_cst, consume}
use boost_lockfree.Atomic.Fences.{Instruction}

unfoldable pub fence_before : MemoryOrder → List Instruction
fence_before consume = Instruction.full ∷ []
fence_before release = Instruction.full ∷ []
fence_before acq_rel = Instruction.full ∷ []
fence_before seq_cst = Instruction.full ∷ []
fence_before relaxed = []
fence_before acquire = []

unfoldable pub fence_after : MemoryOrder → List Instruction
fence_after acquire = Instruction.full ∷ []
fence_after acq_rel = Instruction.full ∷ []
fence_after seq_cst = Instruction.full ∷ []
fence_after relaxed = []
fence_after release = []
fence_after consume = []

unfoldable pub load : MemoryOrder → List Instruction
load order = Instruction.load ∷ fence_after order

unfoldable pub store : MemoryOrder → List Instruction
store order = fence_before order ++ Instruction.store ∷ []
