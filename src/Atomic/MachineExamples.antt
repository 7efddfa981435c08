-- ===== src/Atomic/MachineExamples.antt =====
-- The theorems on the fences, and on Linux on ARM with a kernel that does what it is documented to do.
use boost_lockfree.Prelude.{
  ℕ, ◌≡◌, ◌≢◌, arith, true, false, ◌==◌, if◌then◌else◌, List, [], ◌∷◌, ◌++◌, Returns,
}
use boost_lockfree.Atomic.Order.{MemoryOrder}
use boost_lockfree.Atomic.Fences.{IsFenced, IsThreadFence, separates}
use boost_lockfree.Atomic.Fences.Alpha
use boost_lockfree.Atomic.Fences.Power
use boost_lockfree.Atomic.Fences.Arm
use boost_lockfree.Atomic.Fences.LinuxArm as Linux
use boost_lockfree.Atomic.Fences.Laws.{fences_keep_order, store_load_unordered}
use boost_lockfree.Atomic.LinuxArm.{
  Kernel, Attempt, compare_exchange_strong, exchange, Exchanged, linux_arm_exchange,
  linux_arm_compare,
}

abbrev cmpxchg : ℕ → ℕ → ℕ → ℕ × ℕ
cmpxchg oldval newval i = if i == oldval then (0, newval) else (1, i)

cmpxchg-found : (oldval newval i : ℕ) → i ≡ oldval → cmpxchg oldval newval i ≡ (0, newval)
cmpxchg-found oldval newval i found = ground arith

cmpxchg-other :
    (oldval newval i : ℕ)
    → i ≢ oldval
    → ((cmpxchg oldval newval i).0 ≢ 0) × ((cmpxchg oldval newval i).1 ≡ i)
cmpxchg-other oldval newval i other = ground arith

abbrev kernel : Kernel
kernel = record { cmpxchg = cmpxchg; found_law = cmpxchg-found; other_law = cmpxchg-other }

fences_keep_order_example :
    IsFenced Alpha.atomic_alpha
    × IsFenced (Power.atomic_ppc true)
    × IsFenced Arm.atomic_arm
    × IsThreadFence Alpha.atomic_alpha Alpha.thread_fence
    × IsThreadFence (Power.atomic_ppc true) (Power.thread_fence true)
fences_keep_order_example = fences_keep_order true

store_load_unordered_example :
    (separates (Alpha.store MemoryOrder.seq_cst ++ Alpha.load MemoryOrder.seq_cst) ≡ false)
    × (separates (Power.store true MemoryOrder.seq_cst ++ Power.load MemoryOrder.seq_cst) ≡ false)
    × (separates (Arm.store MemoryOrder.seq_cst ++ Arm.load MemoryOrder.seq_cst) ≡ false)
    × (separates (Linux.store MemoryOrder.seq_cst ++ Linux.load MemoryOrder.seq_cst) ≡ false)
store_load_unordered_example = store_load_unordered true MemoryOrder.seq_cst MemoryOrder.seq_cst

-- Another thread writes 5 before the first call, which finds 5 in place of 3.
abbrev attempts : List Attempt
attempts = record { before = λ v. 5; between = λ v. v } ∷ []

linux_arm_exchange_example : Returns (Exchanged kernel 9 attempts 3) (exchange kernel attempts 9 3)
linux_arm_exchange_example = linux_arm_exchange kernel 9 attempts 3

linux_arm_compare_example :
    ((a : Attempt)
      → (let (success, e', i') = compare_exchange_strong kernel a 3 9 4 in
          (success ≡ (a.before 4 == 3))
          × (i' ≡ (if a.before 4 == 3 then 9 else a.between (a.before 4)))
          × (e' ≡ (if a.before 4 == 3 then 3 else i'))))
    × (let i : ℕ = 4 in
        i ≢ 3 → (a : Attempt) × (compare_exchange_strong kernel a 3 9 4 ≡ (false, 3, 3)))
linux_arm_compare_example = linux_arm_compare kernel 3 9 4
