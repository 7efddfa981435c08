-- ===== src/Atomic/ConstFetchAdd.antt =====
-- boost/atomic/detail/builder.hpp: `build_const_fetch_add`, which leaves a constant 1 or -1 to the
-- increment and the decrement of the class that it extends, on a type as wide as `int` or wider.
use boost_lockfree.Prelude.{
  ℕ, ◌+◌, ◌-◌, ◌%◌, ◌^◌, ◌≡◌, Bool, true, false, ◌==◌, ==_iff, Bool-cases, inl, inr, if◌then◌else◌,
  List,
}
use boost_lockfree.Atomic.Order.{MemoryOrder}
use boost_lockfree.Atomic.Platform.{Event, IsAddition}

module _ (w : ℕ) (fetch_inc fetch_dec : MemoryOrder → ℕ → ℕ × ℕ × List Event)
    (fetch_add_var : ℕ → MemoryOrder → ℕ → ℕ × ℕ × List Event) where
  -- `constant_p` is what `__builtin_constant_p(c)` says; -1 is the highest number of `w` bits.
  unfoldable pub fetch_add : Bool → ℕ → MemoryOrder → ℕ → ℕ × ℕ × List Event
  fetch_add constant_p c order i =
      if constant_p
      then (if c == 2 ^ w - 1
          then fetch_dec order i
          else if c == 1
          then fetch_inc order i
          else fetch_add_var c order i)
      else fetch_add_var c order i

  module _
      (increments : (o : MemoryOrder) (i : ℕ)
        → let x = fetch_inc o i in (x.0 ≡ i) × (x.1 ≡ (i + 1) % 2 ^ w))
      (decrements : (o : MemoryOrder) (i : ℕ)
        → let x = fetch_dec o i in (x.0 ≡ i) × (x.1 ≡ (i + (2 ^ w - 1)) % 2 ^ w))
      (adds : IsAddition w fetch_add_var) where
    -- Whether or not the compiler knows the number, `fetch_add` is an addition, when the operations
    -- that it calls increment, decrement and add on `w` bits.
    pub const_fetch_add-IsAddition : (constant_p : Bool) → IsAddition w (fetch_add constant_p)
    unfolding fetch_add
    const_fetch_add-IsAddition false c o i = adds c o i
    const_fetch_add-IsAddition true c o i = elim (Bool-cases (c == 2 ^ w - 1)) [
      | inl e ↦ rw (e, (==_iff c (2 ^ w - 1)).0 e) (decrements o i)
      | inr other ↦ elim (Bool-cases (c == 1)) [
        | inl e ↦ rw (other, e, (==_iff c 1).0 e) (increments o i)
        | inr e ↦ rw (other, e) (adds c o i)
      ]
    ]
