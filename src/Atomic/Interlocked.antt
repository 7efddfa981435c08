-- ===== src/Atomic/Interlocked.antt =====
-- boost/atomic/detail/interlocked.hpp: `atomic_interlocked_32<T>` on the interlocked functions of
-- Windows, which are a parameter: each returns the old value.
use boost_lockfree.Prelude.{
  ℕ, ◌+◌, ◌%◌, ◌^◌, ◌≡◌, refl, arith, Bool, not, ◌==◌, if◌then◌else◌, List, [], ◌∷◌,
}
use boost_lockfree.Atomic.Order.{MemoryOrder, relaxed, acquire, release, acq_rel, seq_cst, consume}
use boost_lockfree.Atomic.Platform.{Event, load, store, locked, AtomicClass, IsAtomic, IsAddition}
use boost_lockfree.Atomic.X86.{is_seq_cst}

-- `BOOST_INTERLOCKED_COMPARE_EXCHANGE(p, desired, expected)` and its kin on the word at `p`.
pub record Functions : Type 0 where
  pub compare_exchange : (desired expected i : ℕ) → ℕ × ℕ
  pub exchange : (r i : ℕ) → ℕ × ℕ
  pub exchange_add : (c i : ℕ) → ℕ × ℕ
  pub compare_exchange_law :
      (desired expected i : ℕ)
      → compare_exchange desired expected i ≡ (i, (if i == expected then desired else i))
  pub exchange_law : (r i : ℕ) → exchange r i ≡ (i, r)
  pub exchange_add_law : (c i : ℕ) → exchange_add c i ≡ (i, (i + c) % 2 ^ 32)

-- `full_fence` is an exchange of a local variable.
unfoldable pub fence_after_load : MemoryOrder → List Event
fence_after_load seq_cst = locked ∷ []
fence_after_load relaxed = []
fence_after_load acquire = []
fence_after_load release = []
fence_after_load acq_rel = []
fence_after_load consume = []

module _ (windows : Functions) where
  unfoldable pub read : MemoryOrder → ℕ → ℕ × List Event
  unfolding fence_after_load
  read order i = (i, load ∷ fence_after_load order)

  unfoldable pub exchange : ℕ → MemoryOrder → ℕ → ℕ × ℕ × List Event
  exchange r order i = let (old, i') = windows.exchange r i in (old, i', locked ∷ [])

  unfoldable pub write : ℕ → MemoryOrder → ℕ → ℕ × List Event
  unfolding exchange
  write v order i =
      if not (is_seq_cst order)
      then (v, store ∷ [])
      else (let (old, i', events) = exchange v seq_cst i in (i', events))

  unfoldable pub compare_exchange_strong :
      ℕ → ℕ → MemoryOrder → MemoryOrder → ℕ → Bool × ℕ × ℕ × List Event
  compare_exchange_strong expected desired success_order failure_order i =
      let prev = expected in
      let (expected', i') = windows.compare_exchange desired expected i in
      (prev == expected', expected', i', locked ∷ [])

  unfoldable pub compare_exchange_weak :
      ℕ → ℕ → MemoryOrder → MemoryOrder → ℕ → Bool × ℕ × ℕ × List Event
  unfolding compare_exchange_strong
  compare_exchange_weak expected desired success_order failure_order i =
      compare_exchange_strong expected desired success_order failure_order i

  unfoldable pub fetch_add : ℕ → MemoryOrder → ℕ → ℕ × ℕ × List Event
  fetch_add c order i = let (old, i') = windows.exchange_add c i in (old, i', locked ∷ [])

  abbrev pub atomic_interlocked_32 : AtomicClass
  atomic_interlocked_32 = record {
    load = read;
    store = write;
    compare_exchange_strong = compare_exchange_strong;
    compare_exchange_weak = compare_exchange_weak;
    exchange = exchange;
  }

  write-stores : (v : ℕ) (o : MemoryOrder) (i : ℕ) → (write v o i).0 ≡ v
  unfolding write exchange
  write-stores v seq_cst i = rw (windows.exchange_law v i) refl
  write-stores v relaxed i = refl
  write-stores v acquire i = refl
  write-stores v release i = refl
  write-stores v acq_rel i = refl
  write-stores v consume i = refl

  -- `atomic_interlocked_32` does what an atomic integer of 32 bits does, whatever the memory orders,
  -- when the interlocked functions do what they are documented to do.
  pub interlocked-IsAtomic : IsAtomic atomic_interlocked_32 × IsAddition 32 fetch_add
  unfolding read exchange compare_exchange_strong compare_exchange_weak fetch_add
  interlocked-IsAtomic = (
    record {
      loads = λ o i. refl;
      stores = write-stores;
      compares = λ e d s f i. rw (windows.compare_exchange_law d e i) (refl, refl, ground arith);
      never_spurious = λ e d s f i. refl;
      swaps = λ r o i. rw (windows.exchange_law r i) (refl, refl);
    },
    λ n o i. rw (windows.exchange_add_law n i) (refl, refl),
  )
