-- ===== src/Atomic/Fences.antt =====
-- The fences of the classes that pair a load with a conditional store, and of Linux on ARM: which
-- instructions stand before and behind an access for each memory order, and what they keep in order.
-- The children are the files of the processors.
pub mod Alpha
pub mod Power
pub mod Arm
pub mod LinuxArm
pub mod Laws
use boost_lockfree.Prelude.{ℕ, ◌≡◌, Bool, true, false, ◌||◌, List, [], ◌∷◌, ◌++◌}
use boost_lockfree.Atomic.Order.{MemoryOrder}
use boost_lockfree.Atomic.Platform.{asks_acquire, asks_release}

-- A plain load and a plain store, the loop or the pair of a load and a conditional store, a branch
-- that waits for what was loaded, a full barrier, one that lets a later load pass an earlier store, one
-- that waits for the branches before it, and one for the compiler only.
pub data Instruction : Type 0 where
  load : Instruction
  store : Instruction
  update : Instruction
  branch : Instruction
  full : Instruction
  light : Instruction
  isync : Instruction
  compiler : Instruction

-- What the operations of a class are made of. An update that is a compare and swap has the order of
-- its success and that of its failure, and succeeds or not.
pub record FencedClass : Type 0 where
  pub load : MemoryOrder → List Instruction
  pub store : MemoryOrder → List Instruction
  pub compare_exchange_weak : MemoryOrder → MemoryOrder → Bool → List Instruction
  pub fetch : MemoryOrder → List Instruction

-- Does anything hold later accesses back until the loads before it are done? `waits` says whether a
-- branch stands between.
abbrev pub holds_back : Bool → List Instruction → Bool
holds_back waits [] = false
holds_back waits (load ∷ rest) = holds_back false rest
holds_back waits (store ∷ rest) = holds_back waits rest
holds_back waits (update ∷ rest) = holds_back false rest
holds_back waits (branch ∷ rest) = holds_back true rest
holds_back waits (full ∷ rest) = true
holds_back waits (light ∷ rest) = true
holds_back waits (isync ∷ rest) = waits || holds_back waits rest
holds_back waits (compiler ∷ rest) = holds_back waits rest

-- Does anything wait for the accesses before the first one of the list?
abbrev pub waits_for : List Instruction → Bool
waits_for [] = false
waits_for (load ∷ rest) = false
waits_for (store ∷ rest) = false
waits_for (update ∷ rest) = false
waits_for (branch ∷ rest) = waits_for rest
waits_for (full ∷ rest) = true
waits_for (light ∷ rest) = true
waits_for (isync ∷ rest) = waits_for rest
waits_for (compiler ∷ rest) = waits_for rest

abbrev drains : List Instruction → Bool
drains [] = false
drains (load ∷ rest) = false
drains (store ∷ rest) = drains rest
drains (update ∷ rest) = drains rest
drains (branch ∷ rest) = drains rest
drains (full ∷ rest) = true
drains (light ∷ rest) = drains rest
drains (isync ∷ rest) = drains rest
drains (compiler ∷ rest) = drains rest

-- Is a full barrier between the first store of the list and the next load behind it?
abbrev pub separates : List Instruction → Bool
separates [] = false
separates (load ∷ rest) = separates rest
separates (store ∷ rest) = drains rest
separates (update ∷ rest) = separates rest
separates (branch ∷ rest) = separates rest
separates (full ∷ rest) = separates rest
separates (light ∷ rest) = separates rest
separates (isync ∷ rest) = separates rest
separates (compiler ∷ rest) = separates rest

-- The acquire and release orders are kept: an acquire holds later accesses back, and a release waits
-- for earlier ones. A compare and swap that fails has the order of its failure.
pub record IsFenced (c : FencedClass) : Type 0 where
  pub load_acquires : (o : MemoryOrder) → asks_acquire o ≡ true → holds_back false (c.load o) ≡ true
  pub store_releases : (o : MemoryOrder) → asks_release o ≡ true → waits_for (c.store o) ≡ true
  pub compare_releases :
      (s f : MemoryOrder) (success : Bool)
      → asks_release s ≡ true
      → waits_for (c.compare_exchange_weak s f success) ≡ true
  pub success_acquires :
      (s f : MemoryOrder)
      → asks_acquire s ≡ true
      → holds_back false (c.compare_exchange_weak s f true) ≡ true
  pub failure_acquires :
      (s f : MemoryOrder)
      → asks_acquire f ≡ true
      → holds_back false (c.compare_exchange_weak s f false) ≡ true
  pub fetch_acquires :
      (o : MemoryOrder) → asks_acquire o ≡ true → holds_back false (c.fetch o) ≡ true
  pub fetch_releases : (o : MemoryOrder) → asks_release o ≡ true → waits_for (c.fetch o) ≡ true

-- A thread fence gives the accesses round it the order that it has.
pub record IsThreadFence (c : FencedClass) (fence : MemoryOrder → List Instruction) : Type 0 where
  pub acquires :
      (o p : MemoryOrder) → asks_acquire o ≡ true → holds_back false (c.load p ++ fence o) ≡ true
  pub releases :
      (o p : MemoryOrder) → asks_release o ≡ true → waits_for (fence o ++ c.store p) ≡ true
  pub total :
      (p q : MemoryOrder) → separates (c.store p ++ fence MemoryOrder.seq_cst ++ c.load q) ≡ true
