-- ===== src/Atomic/X86.antt =====
-- boost/atomic/detail/gcc-x86.hpp on x86_64: the classes of 8, 16, 32 and 64 bits, whose texts differ
-- in the size of the instructions only, and that of 128 bits. The processor is a parameter.
pub mod Laws
use boost_lockfree.Prelude.{
  ℕ, ◌+◌, ◌%◌, ◌^◌, ◌≡◌, Bool, true, false, not, ◌==◌, if◌then◌else◌, List, [], ◌∷◌, ◌++◌,
}
use boost_lockfree.Atomic.Order.{MemoryOrder, relaxed, acquire, release, acq_rel, seq_cst, consume}
use boost_lockfree.Atomic.Platform.{Event, load, store, locked, full_fence, barrier, AtomicClass}

-- The locked instructions on a word of `w` bits at memory: what the register holds afterwards, and
-- the word. `cmpxchg` compares with the accumulator.
pub record Instructions (w : ℕ) : Type 0 where
  pub cmpxchg : ℕ → ℕ → ℕ → ℕ × ℕ
  pub xchg : ℕ → ℕ → ℕ × ℕ
  pub xadd : ℕ → ℕ → ℕ × ℕ
  pub cmpxchg_law :
      (accumulator r i : ℕ) → cmpxchg accumulator r i ≡ (i, (if i == accumulator then r else i))
  pub xchg_law : (r i : ℕ) → xchg r i ≡ (i, r)
  pub xadd_law : (r i : ℕ) → xadd r i ≡ (i, (i + r) % 2 ^ w)

unfoldable pub fence_before : MemoryOrder → List Event
fence_before consume = barrier ∷ []
fence_before release = barrier ∷ []
fence_before acq_rel = barrier ∷ []
fence_before seq_cst = barrier ∷ []
fence_before relaxed = []
fence_before acquire = []

unfoldable pub fence_after : MemoryOrder → List Event
fence_after acquire = barrier ∷ []
fence_after acq_rel = barrier ∷ []
fence_after seq_cst = barrier ∷ []
fence_after relaxed = []
fence_after release = []
fence_after consume = []

-- The case of `seq_cst` falls through to the next.
unfoldable pub fence_after_load : MemoryOrder → List Event
fence_after_load seq_cst = full_fence ∷ barrier ∷ []
fence_after_load acquire = barrier ∷ []
fence_after_load acq_rel = barrier ∷ []
fence_after_load relaxed = []
fence_after_load release = []
fence_after_load consume = []

unfoldable pub platform_atomic_thread_fence : MemoryOrder → List Event
platform_atomic_thread_fence seq_cst = full_fence ∷ barrier ∷ []
platform_atomic_thread_fence acquire = barrier ∷ []
platform_atomic_thread_fence consume = barrier ∷ []
platform_atomic_thread_fence acq_rel = barrier ∷ []
platform_atomic_thread_fence release = barrier ∷ []
platform_atomic_thread_fence relaxed = []

abbrev pub is_seq_cst : MemoryOrder → Bool
is_seq_cst seq_cst = true
is_seq_cst relaxed = false
is_seq_cst acquire = false
is_seq_cst release = false
is_seq_cst acq_rel = false
is_seq_cst consume = false

module _ {w : ℕ} (cpu : Instructions w) where
  unfoldable pub exchange : ℕ → MemoryOrder → ℕ → ℕ × ℕ × List Event
  exchange r order i = let (old, i') = cpu.xchg r i in (old, i', locked ∷ [])

  unfoldable pub read : MemoryOrder → ℕ → ℕ × List Event
  unfolding fence_after_load
  read order i = (i, load ∷ fence_after_load order)

  unfoldable pub write : ℕ → MemoryOrder → ℕ → ℕ × List Event
  unfolding fence_before exchange
  write v order i =
      if not (is_seq_cst order)
      then (v, fence_before order ++ store ∷ [])
      else (let (old, i', events) = exchange v seq_cst i in (i', events))

  unfoldable pub compare_exchange_strong :
      ℕ → ℕ → MemoryOrder → MemoryOrder → ℕ → Bool × ℕ × ℕ × List Event
  unfolding fence_before fence_after
  compare_exchange_strong expected desired success_order failure_order i =
      let (prev, i') = cpu.cmpxchg expected desired i in
      let success = prev == expected in
      (
        success,
        prev,
        i',
        fence_before success_order
            ++ locked ∷ (if success then fence_after success_order else fence_after failure_order),
      )

  unfoldable pub compare_exchange_weak :
      ℕ → ℕ → MemoryOrder → MemoryOrder → ℕ → Bool × ℕ × ℕ × List Event
  unfolding compare_exchange_strong
  compare_exchange_weak expected desired success_order failure_order i =
      compare_exchange_strong expected desired success_order failure_order i

  unfoldable pub fetch_add : ℕ → MemoryOrder → ℕ → ℕ × ℕ × List Event
  fetch_add c order i = let (old, i') = cpu.xadd c i in (old, i', locked ∷ [])

  abbrev pub atomic_x86 : AtomicClass
  atomic_x86 = record {
    load = read;
    store = write;
    compare_exchange_strong = compare_exchange_strong;
    compare_exchange_weak = compare_exchange_weak;
    exchange = exchange;
  }

-- The class of each size.
abbrev pub atomic_x86_8 : Instructions 8 → AtomicClass
atomic_x86_8 cpu = atomic_x86 cpu

abbrev pub atomic_x86_16 : Instructions 16 → AtomicClass
atomic_x86_16 cpu = atomic_x86 cpu

abbrev pub atomic_x86_32 : Instructions 32 → AtomicClass
atomic_x86_32 cpu = atomic_x86 cpu

abbrev pub atomic_x86_64 : Instructions 64 → AtomicClass
atomic_x86_64 cpu = atomic_x86 cpu

-- The compiler's built-in functions on 16 bytes: `__sync_val_compare_and_swap_16` and
-- `__sync_fetch_and_add` return the old value.
pub record Builtins : Type 0 where
  pub val_compare_and_swap : ℕ → ℕ → ℕ → ℕ × ℕ
  pub bool_compare_and_swap : ℕ → ℕ → ℕ → Bool × ℕ
  pub fetch_and_add : ℕ → ℕ → ℕ × ℕ
  pub val_law :
      (expected desired i : ℕ)
      → val_compare_and_swap expected desired i ≡ (i, (if i == expected then desired else i))
  pub bool_law :
      (expected desired i : ℕ)
      → bool_compare_and_swap expected desired i
        ≡ (i == expected, (if i == expected then desired else i))
  pub add_law : (c i : ℕ) → fetch_and_add c i ≡ (i, (i + c) % 2 ^ 128)

-- `atomic_x86_128`. Its `load` and `store` are those of the other classes. In a run of one thread the
-- loop of `exchange` ends after the first round, since it expects the value that it has just read.
module _ (gcc : Builtins) where
  unfoldable pub compare_exchange_128 :
      ℕ → ℕ → MemoryOrder → MemoryOrder → ℕ → Bool × ℕ × ℕ × List Event
  unfolding fence_after
  compare_exchange_128 expected desired success_order failure_order i =
      let (prev, i') = gcc.val_compare_and_swap expected desired i in
      let success = prev == expected in
      (
        success,
        prev,
        i',
        locked ∷ (if success then fence_after success_order else fence_after failure_order),
      )

  unfoldable pub exchange_128 : ℕ → MemoryOrder → ℕ → ℕ × ℕ × List Event
  exchange_128 r order i = let (done, i') = gcc.bool_compare_and_swap i r i in (r, i', locked ∷ [])

  unfoldable pub fetch_add_128 : ℕ → MemoryOrder → ℕ → ℕ × ℕ × List Event
  fetch_add_128 c order i = let (old, i') = gcc.fetch_and_add c i in (c, i', locked ∷ [])

  unfoldable pub store_128 : ℕ → MemoryOrder → ℕ → ℕ × List Event
  unfolding fence_before exchange_128
  store_128 v order i =
      if not (is_seq_cst order)
      then (v, fence_before order ++ store ∷ [])
      else (let (r, i', events) = exchange_128 v seq_cst i in (i', events))

  unfoldable pub load_128 : MemoryOrder → ℕ → ℕ × List Event
  unfolding fence_after_load
  load_128 order i = (i, load ∷ fence_after_load order)

  abbrev pub atomic_x86_128 : AtomicClass
  atomic_x86_128 = record {
    load = load_128;
    store = store_128;
    compare_exchange_strong = compare_exchange_128;
    compare_exchange_weak = compare_exchange_128;
    exchange = exchange_128;
  }
