-- ===== src/Atomic/Front.antt =====
-- boost/atomic/detail/base.hpp: `internal_atomic` with its overloads of the compare and swap, which
-- `atomic<T>` of boost/atomic.hpp inherits as it is; and `atomic_flag` of boost/atomic.hpp. `super` is
-- what a class inherits.
use boost_lockfree.Prelude.{
  ℕ, ◌-◌, ◌%◌, ◌^◌, ◌≡◌, refl, ap, Bool, true, false, not, ◌==◌, if◌then◌else◌, List, [], ◌∷◌,
}
use boost_lockfree.Atomic.Order.{MemoryOrder, seq_cst, calculate_failure_order}
use boost_lockfree.Atomic.Platform.{Event, AtomicClass, IsAtomic}

module _ (super : AtomicClass) where
  unfoldable pub compare_exchange_strong :
      ℕ → ℕ → MemoryOrder → MemoryOrder → ℕ → Bool × ℕ × ℕ × List Event
  compare_exchange_strong expected desired success_order failure_order i =
      super.compare_exchange_strong expected desired success_order failure_order i

  -- The weak form calls the strong one.
  unfoldable pub compare_exchange_weak :
      ℕ → ℕ → MemoryOrder → MemoryOrder → ℕ → Bool × ℕ × ℕ × List Event
  compare_exchange_weak expected desired success_order failure_order i =
      super.compare_exchange_strong expected desired success_order failure_order i

  -- the overloads with one order
  unfoldable pub compare_exchange_strong_order : ℕ → ℕ → MemoryOrder → ℕ → Bool × ℕ × ℕ × List Event
  compare_exchange_strong_order expected desired order i =
      super.compare_exchange_strong expected desired order (calculate_failure_order order) i

  unfoldable pub compare_exchange_weak_order : ℕ → ℕ → MemoryOrder → ℕ → Bool × ℕ × ℕ × List Event
  compare_exchange_weak_order expected desired order i =
      super.compare_exchange_strong expected desired order (calculate_failure_order order) i

  -- `operator T` and `operator=`: the value, or what the assignment returns, with the word
  unfoldable pub convert : ℕ → ℕ × List Event
  convert i = super.load seq_cst i

  unfoldable pub assign : ℕ → ℕ → ℕ × ℕ × List Event
  assign v i = let (i', events) = super.store v seq_cst i in (v, i', events)

  abbrev pub internal_atomic : AtomicClass
  internal_atomic = record {
    load = super.load;
    store = super.store;
    compare_exchange_strong = compare_exchange_strong;
    compare_exchange_weak = compare_exchange_weak;
    exchange = super.exchange;
  }

-- `fetch_sub` of `build_arithmeticops` on a word of `w` bits adds the negative.
unfoldable pub fetch_sub :
    ℕ → (ℕ → MemoryOrder → ℕ → ℕ × ℕ × List Event) → ℕ → MemoryOrder → ℕ → ℕ × ℕ × List Event
fetch_sub w fetch_add c order v = fetch_add ((2 ^ w - c % 2 ^ w) % 2 ^ w) order v

-- `atomic_flag`, an `atomic<int>`.
module _ (super : AtomicClass) where
  unfoldable pub init_flag : Bool → ℕ
  init_flag initial_state = if initial_state then 1 else 0

  unfoldable pub test_and_set : MemoryOrder → ℕ → Bool × ℕ × List Event
  test_and_set order i =
      let (old, i', events) = super.exchange 1 order i in (not (old == 0), i', events)

  unfoldable pub clear : MemoryOrder → ℕ → ℕ × List Event
  clear order i = super.store 0 order i

  -- What calls of `test_and_set` with these orders return, one after another.
  unfoldable pub attempts : List MemoryOrder → ℕ → List Bool
  unfolding test_and_set
  attempts [] i = []
  attempts (o ∷ orders) i =
      let (was_set, i', events) = test_and_set o i in was_set ∷ attempts orders i'

  abbrev pub all_set : List MemoryOrder → List Bool
  all_set [] = []
  all_set (o ∷ orders) = true ∷ all_set orders

  attempts-set : IsAtomic super → (orders : List MemoryOrder) → attempts orders 1 ≡ all_set orders
  unfolding attempts test_and_set
  attempts-set right [] = refl
  attempts-set right (o ∷ orders) =
      rw ((right.swaps 1 o 1).0, (right.swaps 1 o 1).1)
        (ap (λ t. true ∷ t) (attempts-set right orders))

  -- Of any calls of `test_and_set` in a row on a cleared flag, or on one made clear, the first alone
  -- returns false: one caller gets the flag. On a flag made set none does. What the class inherits is
  -- an atomic integer.
  pub one_winner :
      IsAtomic super
      → (o first : MemoryOrder) (orders : List MemoryOrder) (i : ℕ)
      → (attempts (first ∷ orders) (clear o i).0 ≡ false ∷ all_set orders)
        × (attempts (first ∷ orders) (init_flag false) ≡ false ∷ all_set orders)
        × (attempts orders (init_flag true) ≡ all_set orders)
  unfolding attempts test_and_set clear init_flag
  one_winner right o first orders i = (
    rw (right.stores 0 o i) (winner first orders),
    winner first orders,
    attempts-set right orders,
  )
    where
      winner :
          (first : MemoryOrder) (orders : List MemoryOrder)
          → attempts (first ∷ orders) 0 ≡ false ∷ all_set orders
      winner first orders =
          rw ((right.swaps 1 first 0).0, (right.swaps 1 first 0).1)
            (ap (λ t. false ∷ t) (attempts-set right orders))

-- `internal_atomic` keeps an atomic integer one, and the order of a failure is the one calculated.
module _ (super : AtomicClass) where
  pub internal-IsAtomic : IsAtomic super → IsAtomic (internal_atomic super)
  unfolding compare_exchange_strong compare_exchange_weak
  internal-IsAtomic right = record {
    loads = right.loads;
    stores = right.stores;
    compares = right.compares;
    never_spurious = λ e d s f i. refl;
    swaps = right.swaps;
  }
