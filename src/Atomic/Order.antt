-- ===== src/Atomic/Order.antt =====
-- boost/memory_order.hpp, and `calculate_failure_order` of boost/atomic/detail/base.hpp: the order of
-- a compare and swap that fails, which is a load.
use Prim.Native.Nat.{bit_and}
use boost_lockfree.Prelude.{ℕ, ◌≡◌, refl, Bool, true, false}

pub data MemoryOrder : Type 0 where
  relaxed : MemoryOrder
  acquire : MemoryOrder
  release : MemoryOrder
  acq_rel : MemoryOrder
  seq_cst : MemoryOrder
  consume : MemoryOrder

-- The values of the enumeration, whose bits say what fences an order asks for.
abbrev pub value : MemoryOrder → ℕ
value relaxed = 0
value acquire = 1
value release = 2
value acq_rel = 3
value seq_cst = 7
value consume = 8

unfoldable pub calculate_failure_order : MemoryOrder → MemoryOrder
calculate_failure_order acq_rel = acquire
calculate_failure_order release = relaxed
calculate_failure_order relaxed = relaxed
calculate_failure_order acquire = acquire
calculate_failure_order seq_cst = seq_cst
calculate_failure_order consume = consume

-- whether a load may have this order
abbrev pub is_load_order : MemoryOrder → Bool
is_load_order release = false
is_load_order acq_rel = false
is_load_order relaxed = true
is_load_order acquire = true
is_load_order seq_cst = true
is_load_order consume = true

-- The failure order of every order is one that a load may have, asks for no fence that the order
-- itself does not ask for, and is its own failure order.
pub failure_order_weaker :
    (o : MemoryOrder)
    → (is_load_order (calculate_failure_order o) ≡ true)
      × (bit_and (value (calculate_failure_order o)) (value o) ≡ value (calculate_failure_order o))
      × (calculate_failure_order (calculate_failure_order o) ≡ calculate_failure_order o)
unfolding calculate_failure_order
failure_order_weaker relaxed = (refl, refl, refl)
failure_order_weaker acquire = (refl, refl, refl)
failure_order_weaker release = (refl, refl, refl)
failure_order_weaker acq_rel = (refl, refl, refl)
failure_order_weaker seq_cst = (refl, refl, refl)
failure_order_weaker consume = (refl, refl, refl)
