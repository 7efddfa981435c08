-- ===== src/Atomic/Platform.antt =====
-- What the classes of boost/atomic/detail for one processor or compiler offer the builders, and when
-- it is right. The events are what a call does to memory, in order.
use boost_lockfree.Prelude.{
  ℕ, ◌+◌, ◌/◌, ◌%◌, ◌^◌, ◌≡◌, Bool, true, false, ◌==◌, if◌then◌else◌, List, [], ◌∷◌,
}
use boost_lockfree.Atomic.Order.{MemoryOrder, value}

-- A plain access, a read-modify-write that is atomic and a full barrier, a barrier of the processor,
-- and one for the compiler only.
pub data Event : Type 0 where
  load : Event
  store : Event
  locked : Event
  full_fence : Event
  barrier : Event

-- The operations on the word `i`: what they return, the word, and the events. A compare and swap
-- returns whether it succeeded and what `expected` then holds.
pub record AtomicClass : Type 0 where
  pub load : MemoryOrder → ℕ → ℕ × List Event
  pub store : ℕ → MemoryOrder → ℕ → ℕ × List Event
  pub compare_exchange_strong : ℕ → ℕ → MemoryOrder → MemoryOrder → ℕ → Bool × ℕ × ℕ × List Event
  pub compare_exchange_weak : ℕ → ℕ → MemoryOrder → MemoryOrder → ℕ → Bool × ℕ × ℕ × List Event
  pub exchange : ℕ → MemoryOrder → ℕ → ℕ × ℕ × List Event

-- The operations are those of an atomic variable, whatever the memory orders.
pub record IsAtomic (c : AtomicClass) : Type 0 where
  pub loads : (o : MemoryOrder) (i : ℕ) → (c.load o i).0 ≡ i
  pub stores : (v : ℕ) (o : MemoryOrder) (i : ℕ) → (c.store v o i).0 ≡ v
  pub compares :
      (e d : ℕ) (s f : MemoryOrder) (i : ℕ)
      → let r = c.compare_exchange_strong e d s f i in
        (r.0 ≡ (e == i)) × (r.1 ≡ i) × (r.2 ≡ (if e == i then d else i))
  pub never_spurious :
      (e d : ℕ) (s f : MemoryOrder) (i : ℕ)
      → c.compare_exchange_weak e d s f i ≡ c.compare_exchange_strong e d s f i
  pub swaps : (r : ℕ) (o : MemoryOrder) (i : ℕ) → let x = c.exchange r o i in (x.0 ≡ i) × (x.1 ≡ r)

-- An addition to a word of `w` bits, which returns the word as it was.
abbrev pub IsAddition : ℕ → (ℕ → MemoryOrder → ℕ → ℕ × ℕ × List Event) → Type 0
IsAddition w fetch_add =
    (n : ℕ) (o : MemoryOrder) (i : ℕ)
    → (let x = fetch_add n o i in (x.0 ≡ i) × (x.1 ≡ (i + n) % 2 ^ w))

-- whether an order asks for acquire, and for release, semantics
abbrev pub asks_acquire : MemoryOrder → Bool
asks_acquire o = value o % 2 == 1

abbrev pub asks_release : MemoryOrder → Bool
asks_release o = value o / 2 % 2 == 1

-- Does anything keep later accesses behind the access of these events, and earlier ones before it?
abbrev pub has_fence : List Event → Bool
has_fence [] = false
has_fence (load ∷ rest) = has_fence rest
has_fence (store ∷ rest) = has_fence rest
has_fence (locked ∷ rest) = true
has_fence (full_fence ∷ rest) = true
has_fence (barrier ∷ rest) = true

abbrev pub acquires : List Event → Bool
acquires [] = false
acquires (load ∷ rest) = has_fence rest
acquires (store ∷ rest) = has_fence rest
acquires (locked ∷ rest) = true
acquires (full_fence ∷ rest) = acquires rest
acquires (barrier ∷ rest) = acquires rest

abbrev pub releases : List Event → Bool
releases [] = false
releases (load ∷ rest) = false
releases (store ∷ rest) = false
releases (locked ∷ rest) = true
releases (full_fence ∷ rest) = true
releases (barrier ∷ rest) = true

-- whether the processor orders the access with those of its other side
abbrev pub is_total : List Event → Bool
is_total [] = false
is_total (load ∷ rest) = is_total rest
is_total (store ∷ rest) = is_total rest
is_total (locked ∷ rest) = true
is_total (full_fence ∷ rest) = true
is_total (barrier ∷ rest) = is_total rest

-- The orders are kept: an acquire holds later accesses back, a release waits for earlier ones, and
-- a sequentially consistent access is ordered with all others.
pub record IsOrdered (c : AtomicClass) : Type 0 where
  pub load_acquires :
      (o : MemoryOrder) (i : ℕ) → asks_acquire o ≡ true → acquires (c.load o i).1 ≡ true
  pub load_total : (i : ℕ) → is_total (c.load MemoryOrder.seq_cst i).1 ≡ true
  pub store_releases :
      (v : ℕ) (o : MemoryOrder) (i : ℕ) → asks_release o ≡ true → releases (c.store v o i).1 ≡ true
  pub store_total : (v i : ℕ) → is_total (c.store v MemoryOrder.seq_cst i).1 ≡ true
  pub compare_ordered :
      (e d : ℕ) (s f : MemoryOrder) (i : ℕ)
      → let events = (c.compare_exchange_strong e d s f i).3 in
        (acquires events ≡ true) × (releases events ≡ true) × (is_total events ≡ true)
  pub exchange_ordered :
      (r : ℕ) (o : MemoryOrder) (i : ℕ)
      → let events = (c.exchange r o i).2 in
        (acquires events ≡ true) × (releases events ≡ true) × (is_total events ≡ true)
