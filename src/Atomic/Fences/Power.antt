-- ===== src/Atomic/Fences/Power.antt =====
-- boost/atomic/detail/gcc-ppc.hpp: the fences, and the operations of `atomic_ppc_32` in the order in
-- which they run them; `is_64` says whether `__powerpc64__` is defined where that class is compiled.
-- `atomic_ppc_64` is not modelled here. `sync` is a full barrier, `lwsync` a light one, and `isync`
-- waits for the branches before it.
use boost_lockfree.Prelude.{Bool, if◌then◌else◌, List, [], ◌∷◌, ◌++◌}
use boost_lockfree.Atomic.Order.{MemoryOrder, relaxed, acquire, release, acq_rel, seq_cst, consume}
use boost_lockfree.Atomic.Fences.{Instruction, FencedClass}

unfoldable pub fence_after : MemoryOrder → List Instruction
fence_after acquire = Instruction.isync ∷ Instruction.compiler ∷ []
fence_after acq_rel = Instruction.isync ∷ Instruction.compiler ∷ []
fence_after seq_cst = Instruction.isync ∷ Instruction.compiler ∷ []
fence_after consume = Instruction.compiler ∷ []
fence_after relaxed = []
fence_after release = []

-- The load has a branch on what it has loaded behind it.
unfoldable pub load : MemoryOrder → List Instruction
load order = Instruction.load ∷ Instruction.branch ∷ fence_after order

module _ (is_64 : Bool) where
  -- Without `__powerpc64__`, `release` and `acq_rel` fall through to `sync`.
  unfoldable pub fence_before : MemoryOrder → List Instruction
  fence_before release = (if is_64 then Instruction.light else Instruction.full) ∷ []
  fence_before acq_rel = (if is_64 then Instruction.light else Instruction.full) ∷ []
  fence_before seq_cst = Instruction.full ∷ []
  fence_before relaxed = []
  fence_before acquire = []
  fence_before consume = []

  unfoldable pub thread_fence : MemoryOrder → List Instruction
  thread_fence acquire = Instruction.isync ∷ []
  thread_fence release = (if is_64 then Instruction.light else Instruction.full) ∷ []
  thread_fence acq_rel = (if is_64 then Instruction.light else Instruction.full) ∷ []
  thread_fence seq_cst = Instruction.full ∷ []
  thread_fence relaxed = []
  thread_fence consume = []

  unfoldable pub store : MemoryOrder → List Instruction
  store order = fence_before order ++ Instruction.store ∷ []

  -- Both ways out of the pair go over a branch: on the comparison, or on the conditional store.
  unfoldable pub compare_exchange_weak : MemoryOrder → MemoryOrder → Bool → List Instruction
  compare_exchange_weak success_order failure_order success =
      fence_before success_order
      ++ Instruction.update
        ∷ Instruction.branch
        ∷ (if success then fence_after success_order else fence_after failure_order)

  -- `fetch_add_var`, `fetch_inc` and `fetch_dec`: the loop ends in a branch.
  unfoldable pub fetch : MemoryOrder → List Instruction
  fetch order = fence_before order ++ Instruction.update ∷ Instruction.branch ∷ fence_after order

  abbrev pub atomic_ppc : FencedClass
  atomic_ppc = record {
    load = load;
    store = store;
    compare_exchange_weak = compare_exchange_weak;
    fetch = fetch;
  }
