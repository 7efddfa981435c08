-- ===== src/Atomic/Fallback.antt =====
-- boost/atomic/detail/fallback.hpp: `fallback_atomic<T>`, each operation under the spinlock that the
-- pool has for the object. A value is the number that its bytes spell. The spinlock is
-- `boost/smart_ptr`'s: what runs under it is one step.
use boost_lockfree.Prelude.{
  ℕ, refl, arith, Bool, true, false, ◌==◌, if◌then◌else◌, List, [], ◌∷◌, Bool-cases, inl, inr,
}
use boost_lockfree.Atomic.Order.{MemoryOrder}
use boost_lockfree.Atomic.Platform.{Event, locked, AtomicClass, IsAtomic}

unfoldable pub store : ℕ → MemoryOrder → ℕ → ℕ × List Event
store t order i = (t, locked ∷ [])

unfoldable pub load : MemoryOrder → ℕ → ℕ × List Event
load order i = let tmp = i in (tmp, locked ∷ [])

-- `memcmp` compares the object with `expected`, and `memcpy` writes to the one or to the other.
unfoldable pub compare_exchange_strong :
    ℕ → ℕ → MemoryOrder → MemoryOrder → ℕ → Bool × ℕ × ℕ × List Event
compare_exchange_strong expected desired success_order failure_order i =
    if i == expected then (true, expected, desired, locked ∷ []) else (false, i, i, locked ∷ [])

unfoldable pub compare_exchange_weak :
    ℕ → ℕ → MemoryOrder → MemoryOrder → ℕ → Bool × ℕ × ℕ × List Event
unfolding compare_exchange_strong
compare_exchange_weak expected desired success_order failure_order i =
    compare_exchange_strong expected desired success_order failure_order i

unfoldable pub exchange : ℕ → MemoryOrder → ℕ → ℕ × ℕ × List Event
exchange replacement order i = let tmp = i in (tmp, replacement, locked ∷ [])

abbrev pub fallback_atomic : AtomicClass
fallback_atomic = record {
  load = load;
  store = store;
  compare_exchange_strong = compare_exchange_strong;
  compare_exchange_weak = compare_exchange_weak;
  exchange = exchange;
}

-- `fallback_atomic` does what an atomic variable does, whatever the memory orders: a compare and swap
-- tells whether it found what was expected, reports what it found, and swaps then only.
pub fallback-IsAtomic : IsAtomic fallback_atomic
unfolding load store compare_exchange_strong compare_exchange_weak exchange
fallback-IsAtomic = record {
  loads = λ o i. refl;
  stores = λ v o i. refl;
  compares = λ e d s f i. elim (Bool-cases (i == e)) [
    | inl same ↦ ground arith
    | inr other ↦ ground arith
  ];
  never_spurious = λ e d s f i. refl;
  swaps = λ r o i. (refl, refl);
}
