-- ===== src/Atomic/Fences/Laws.antt =====
-- What the fences of Alpha, Power and ARM keep in order, and what they do not.
use boost_lockfree.Prelude.{◌≡◌, arith, Bool, false, ◌++◌}
use boost_lockfree.Atomic.Order.{MemoryOrder}
use boost_lockfree.Atomic.Fences.{IsFenced, IsThreadFence, separates}
use boost_lockfree.Atomic.Fences.Alpha
use boost_lockfree.Atomic.Fences.Power
use boost_lockfree.Atomic.Fences.Arm
use boost_lockfree.Atomic.Fences.LinuxArm

alpha-IsFenced : IsFenced Alpha.atomic_alpha
unfolding Alpha.load Alpha.store Alpha.compare_exchange_weak Alpha.fetch Alpha.fence_before
    Alpha.fence_after
alpha-IsFenced = record {
  load_acquires = λ o h. ground arith;
  store_releases = λ o h. ground arith;
  compare_releases = λ s f x h. ground arith;
  success_acquires = λ s f h. ground arith;
  failure_acquires = λ s f h. ground arith;
  fetch_acquires = λ o h. ground arith;
  fetch_releases = λ o h. ground arith;
}

power-IsFenced : (is_64 : Bool) → IsFenced (Power.atomic_ppc is_64)
unfolding Power.load Power.store Power.compare_exchange_weak Power.fetch Power.fence_before
    Power.fence_after
power-IsFenced is_64 = record {
  load_acquires = λ o h. ground arith;
  store_releases = λ o h. ground arith;
  compare_releases = λ s f x h. ground arith;
  success_acquires = λ s f h. ground arith;
  failure_acquires = λ s f h. ground arith;
  fetch_acquires = λ o h. ground arith;
  fetch_releases = λ o h. ground arith;
}

arm-IsFenced : IsFenced Arm.atomic_arm
unfolding Arm.load Arm.store Arm.compare_exchange_weak Arm.fetch Arm.fence_before Arm.fence_after
arm-IsFenced = record {
  load_acquires = λ o h. ground arith;
  store_releases = λ o h. ground arith;
  compare_releases = λ s f x h. ground arith;
  success_acquires = λ s f h. ground arith;
  failure_acquires = λ s f h. ground arith;
  fetch_acquires = λ o h. ground arith;
  fetch_releases = λ o h. ground arith;
}

alpha-IsThreadFence : IsThreadFence Alpha.atomic_alpha Alpha.thread_fence
unfolding Alpha.load Alpha.store Alpha.thread_fence Alpha.fence_before Alpha.fence_after
alpha-IsThreadFence = record {
  acquires = λ o p h. ground arith;
  releases = λ o p h. ground arith;
  total = λ p q. ground arith;
}

power-IsThreadFence :
    (is_64 : Bool) → IsThreadFence (Power.atomic_ppc is_64) (Power.thread_fence is_64)
unfolding Power.load Power.store Power.thread_fence Power.fence_before Power.fence_after
power-IsThreadFence is_64 = record {
  acquires = λ o p h. ground arith;
  releases = λ o p h. ground arith;
  total = λ p q. ground arith;
}

-- In the classes of Alpha, of Power with 32 bits, compiled for either width, and of ARMv6, every operation keeps the acquire
-- and the release order that it is called with: behind an acquire stands a barrier, or a branch and
-- `isync`, and before a release a barrier. A compare and swap that fails acquires when the order of
-- its failure asks for it. On Alpha and Power a thread fence gives the accesses round it, of whatever
-- order, its own order, and one that is sequentially consistent keeps a store before it and a load
-- behind it apart.
pub fences_keep_order :
    (is_64 : Bool)
    → IsFenced Alpha.atomic_alpha
      × IsFenced (Power.atomic_ppc is_64)
      × IsFenced Arm.atomic_arm
      × IsThreadFence Alpha.atomic_alpha Alpha.thread_fence
      × IsThreadFence (Power.atomic_ppc is_64) (Power.thread_fence is_64)
fences_keep_order is_64 = (
  alpha-IsFenced,
  power-IsFenced is_64,
  arm-IsFenced,
  alpha-IsThreadFence,
  power-IsThreadFence is_64,
)

-- On Alpha, Power, ARMv6 and Linux on ARM no full barrier stands between a store and a load that follows
-- it, even when both are sequentially consistent: the load may be done first.
pub store_load_unordered :
    (is_64 : Bool) (o p : MemoryOrder)
    → (separates (Alpha.store o ++ Alpha.load p) ≡ false)
      × (separates (Power.store is_64 o ++ Power.load p) ≡ false)
      × (separates (Arm.store o ++ Arm.load p) ≡ false)
      × (separates (LinuxArm.store o ++ LinuxArm.load p) ≡ false)
unfolding Alpha.load Alpha.store Alpha.fence_before Alpha.fence_after Power.load Power.store
    Power.fence_before Power.fence_after Arm.load Arm.store Arm.fence_before Arm.fence_after
    LinuxArm.load LinuxArm.store LinuxArm.fence_before LinuxArm.fence_after
store_load_unordered is_64 o p = (ground arith, ground arith, ground arith, ground arith)
