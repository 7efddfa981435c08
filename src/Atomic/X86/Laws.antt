-- ===== src/Atomic/X86/Laws.antt =====
-- The classes of 8 to 64 bits are atomic integers that keep the memory orders, that of 128 is not.
use boost_lockfree.Prelude.{
  ap, ℕ, ◌+◌, ◌%◌, ◌^◌, ◌≡◌, refl, arith, true, ◌==◌, if◌then◌else◌, List, ◌∷◌, ◌++◌,
}
use boost_lockfree.Atomic.Order.{MemoryOrder, relaxed, acquire, release, acq_rel, seq_cst, consume}
use boost_lockfree.Atomic.Platform.{
  Event, IsAtomic, IsAddition, IsOrdered, asks_acquire, asks_release, acquires, releases, is_total,
}
use boost_lockfree.Atomic.X86.{
  Instructions, Builtins, fence_before, fence_after, fence_after_load, exchange, read, write,
  compare_exchange_strong, compare_exchange_weak, fetch_add, atomic_x86, atomic_x86_128,
  exchange_128, fetch_add_128,
}

module _ {w : ℕ} (cpu : Instructions w) where
  write-stores : (v : ℕ) (o : MemoryOrder) (i : ℕ) → (write cpu v o i).0 ≡ v
  unfolding write exchange
  write-stores v seq_cst i = rw (cpu.xchg_law v i) refl
  write-stores v relaxed i = refl
  write-stores v acquire i = refl
  write-stores v release i = refl
  write-stores v acq_rel i = refl
  write-stores v consume i = refl

  compares :
      (e d : ℕ) (s f : MemoryOrder) (i : ℕ)
      → let r = compare_exchange_strong cpu e d s f i in
        (r.0 ≡ (e == i)) × (r.1 ≡ i) × (r.2 ≡ (if e == i then d else i))
  unfolding compare_exchange_strong
  compares e d s f i = rw (cpu.cmpxchg_law e d i) (ground arith, refl, ground arith)

  -- Each class of 8 to 64 bits does what an atomic integer does, whatever the memory orders, on a
  -- processor whose instructions do what they are documented to do.
  pub x86-IsAtomic : IsAtomic (atomic_x86 cpu) × IsAddition w (fetch_add cpu)
  unfolding read compare_exchange_weak exchange fetch_add
  x86-IsAtomic = (
    record {
      loads = λ o i. refl;
      stores = write-stores;
      compares = compares;
      never_spurious = λ e d s f i. refl;
      swaps = λ r o i. rw (cpu.xchg_law r i) (refl, refl);
    },
    λ n o i. rw (cpu.xadd_law n i) (refl, refl),
  )

  read-acquires :
      (o : MemoryOrder) (i : ℕ) → asks_acquire o ≡ true → acquires (read cpu o i).1 ≡ true
  unfolding read fence_after_load
  read-acquires seq_cst i h = refl
  read-acquires acquire i h = refl
  read-acquires acq_rel i h = refl
  read-acquires relaxed i h = absurd (ground (arith, h))
  read-acquires release i h = absurd (ground (arith, h))
  read-acquires consume i h = absurd (ground (arith, h))

  write-releases :
      (v : ℕ) (o : MemoryOrder) (i : ℕ)
      → asks_release o ≡ true
      → releases (write cpu v o i).1 ≡ true
  unfolding write exchange fence_before
  write-releases v seq_cst i h = refl
  write-releases v release i h = refl
  write-releases v acq_rel i h = refl
  write-releases v relaxed i h = absurd (ground (arith, h))
  write-releases v acquire i h = absurd (ground (arith, h))
  write-releases v consume i h = absurd (ground (arith, h))

  -- What stands before the locked instruction does not take its barriers away.
  around :
      (s : MemoryOrder) (rest : List Event)
      → let events = fence_before s ++ Event.locked ∷ rest in
        (acquires events ≡ true) × (releases events ≡ true) × (is_total events ≡ true)
  unfolding fence_before
  around seq_cst rest = (refl, refl, refl)
  around release rest = (refl, refl, refl)
  around acq_rel rest = (refl, refl, refl)
  around relaxed rest = (refl, refl, refl)
  around acquire rest = (refl, refl, refl)
  around consume rest = (refl, refl, refl)

  -- Each class of 8 to 64 bits keeps the memory orders: a load with acquire semantics has a barrier
  -- behind it, a store with release semantics one before it, a sequentially consistent load or store
  -- a full fence or a locked instruction, and a compare and swap or an exchange is always locked.
  pub x86-IsOrdered : IsOrdered (atomic_x86 cpu)
  unfolding read write exchange fence_after_load compare_exchange_strong
  x86-IsOrdered = record {
    load_acquires = read-acquires;
    load_total = λ i. refl;
    store_releases = write-releases;
    store_total = λ v i. refl;
    compare_ordered =
        λ e d s f i. around s (if (cpu.cmpxchg e d i).0 == e then fence_after s else fence_after f);
    exchange_ordered = λ r o i. (refl, refl, refl);
  }

exchange_128-wrong :
    (gcc : Builtins) (r : ℕ) (o : MemoryOrder) (i : ℕ)
    → ((exchange_128 gcc r o i).0 ≡ r) × ((exchange_128 gcc r o i).1 ≡ r)
unfolding exchange_128
exchange_128-wrong gcc r o i = (refl, ground (arith, ap (λ x. x.1) (gcc.bool_law i r i)))

fetch_add_128-wrong :
    (gcc : Builtins) (c : ℕ) (o : MemoryOrder) (i : ℕ)
    → ((fetch_add_128 gcc c o i).0 ≡ c) × ((fetch_add_128 gcc c o i).1 ≡ (i + c) % 2 ^ 128)
unfolding fetch_add_128
fetch_add_128-wrong gcc c o i = (refl, ap (λ x. x.1) (gcc.add_law c i))

-- `atomic_x86_128` is no atomic variable. `exchange` puts its argument in and returns it, whatever
-- the value was, and `fetch_add` adds modulo `2 ^ 128` and returns the addend, whatever the value
-- was; so the class has neither an atomic exchange nor an atomic addition.
pub x86_128_not-IsAtomic :
    (gcc : Builtins)
    → ((r : ℕ) (o : MemoryOrder) (i : ℕ)
        → ((exchange_128 gcc r o i).0 ≡ r) × ((exchange_128 gcc r o i).1 ≡ r))
      × ((c : ℕ) (o : MemoryOrder) (i : ℕ)
          → ((fetch_add_128 gcc c o i).0 ≡ c) × ((fetch_add_128 gcc c o i).1 ≡ (i + c) % 2 ^ 128))
      × ¬ (IsAtomic (atomic_x86_128 gcc))
      × ¬ (IsAddition 128 (fetch_add_128 gcc))
unfolding exchange_128 fetch_add_128
x86_128_not-IsAtomic gcc = (
  exchange_128-wrong gcc,
  fetch_add_128-wrong gcc,
  λ right. omega (arith, (right.swaps 1 relaxed 0).0),
  λ right. omega (arith, (right 1 relaxed 0).0),
)
