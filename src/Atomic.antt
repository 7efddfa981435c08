-- ===== src/Atomic.antt =====
-- boost/atomic/detail/builder.hpp and base.hpp: the operations of an atomic integer that are built
-- from a weak compare and swap, while other threads may change the value at any time. The platforms'
-- classes, which the builders take as `Base`, fill the interface below.
pub mod Weak
pub mod Linear
pub mod Order
pub mod Fences
pub mod Platform
pub mod X86
pub mod Fallback
pub mod Interlocked
pub mod CasLoops
pub mod LoadLocked
pub mod Alpha
pub mod Power
pub mod Arm
pub mod LinuxArm
pub mod Casts
pub mod Front
pub mod Pointer
pub mod Bits
pub mod Larger
pub mod ConstFetchAdd
pub mod Examples
pub mod PlatformExamples
pub mod MachineExamples
pub mod FrontExamples
use Prim.Native.Nat.{bit_and, bit_or, bit_xor}
use boost_lockfree.Prelude.{
  ℕ, ◌+◌, ◌-◌, ◌%◌, ◌<◌, ◌≡◌, ◌⊎◌, Bool, true, false, ◌==◌, if◌then◌else◌, List, [], ◌∷◌, Run, ok,
  out_of_fuel, ◌>>=◌,
}

-- What the builders use of `Base`.
pub record Base : Type 1 where
  -- the storage and the value in it; the number of values of `integral_type`
  pub Cell : Type 0
  pub value : Cell → ℕ
  pub limit : ℕ
  -- What happens around one call: what the other threads have made of the storage by the moment
  -- that the call takes effect, and whatever makes it fail for no reason. A calm call meets neither.
  pub Attempt : Type 0
  pub others : Attempt → Cell → Cell
  pub calm : Attempt
  -- `compare_exchange_weak(expected, desired)`: whether it succeeded, what `expected` then holds,
  -- and the storage.
  pub compare_exchange_weak : Attempt → ℕ → ℕ → Cell → Bool × ℕ × Cell
  pub some_limit : 0 < limit
  pub others-calm : (c : Cell) → others calm c ≡ c
  -- It fails and reports the value, or finds what was expected and puts in what is desired.
  pub fails_or_swaps :
      (a : Attempt) (c₀ c : Cell) (d : ℕ)
      → d < limit
      → (compare_exchange_weak a (value c₀) d c ≡ (false, value (others a c), others a c))
        ⊎ ((value c₀ ≡ value (others a c))
            × (c' : Cell) × (compare_exchange_weak a (value c₀) d c ≡ (true, value c₀, c'))
            × (value c' ≡ d))
  pub calm_swaps :
      (c₀ c : Cell) (d : ℕ)
      → d < limit
      → value c₀ ≡ value c
      → (c' : Cell) × (compare_exchange_weak calm (value c₀) d c ≡ (true, value c₀, c'))
        × (value c' ≡ d)

module _ (B : Base) where
  -- `build_exchange::compare_exchange_strong`, one round of its loop and the loop. The call behind
  -- the end of the list is calm.
  unfoldable pub compare_exchange_strong_round :
      (B.Cell → Run (Bool × ℕ × B.Cell)) → ℕ → ℕ → B.Attempt → B.Cell → Run (Bool × ℕ × B.Cell)
  compare_exchange_strong_round again expected_save desired a c =
      let (done, expected, c') = B.compare_exchange_weak a expected_save desired c in
      let rest = again c' in
      if done
      then ok (true, expected, c')
      else if expected_save == expected
      then rest
      else ok (false, expected, c')

  unfoldable pub compare_exchange_strong : List B.Attempt → ℕ → ℕ → B.Cell → Run (Bool × ℕ × B.Cell)
  unfolding compare_exchange_strong_round
  compare_exchange_strong [] expected desired c =
      compare_exchange_strong_round (λ _. out_of_fuel) expected desired B.calm c
  compare_exchange_strong (a ∷ more) expected desired c =
      compare_exchange_strong_round (compare_exchange_strong more expected desired) expected desired
        a c

  -- The loop that `exchange`, `fetch_add`, `fetch_and`, `fetch_or` and `fetch_xor` share: swap in
  -- `f o` for what `o` was found, until that succeeds.
  unfoldable pub modify_round :
      (ℕ → B.Cell → Run (ℕ × B.Cell)) → (ℕ → ℕ) → B.Attempt → ℕ → B.Cell → Run (ℕ × B.Cell)
  modify_round again f a o c =
      let (done, o', c') = B.compare_exchange_weak a o (f o) c in
      let rest = again o' c' in if done then ok (o', c') else rest

  unfoldable pub modify_loop : (ℕ → ℕ) → List B.Attempt → ℕ → B.Cell → Run (ℕ × B.Cell)
  unfolding modify_round
  modify_loop f [] o c = modify_round (λ _ _. out_of_fuel) f B.calm o c
  modify_loop f (a ∷ more) o c = modify_round (modify_loop f more) f a o c

  -- The first read is `load(memory_order_relaxed)`.
  unfoldable pub modify : (ℕ → ℕ) → List B.Attempt → B.Cell → Run (ℕ × B.Cell)
  unfolding modify_loop
  modify f attempts c = modify_loop f attempts (B.value c) c

  -- What is stored in an `integral_type`, and the sum and the negative of such numbers.
  abbrev pub integral : ℕ → ℕ
  integral n = n % B.limit

  abbrev pub add : ℕ → ℕ → ℕ
  add a b = integral (a + b)

  abbrev pub neg : ℕ → ℕ
  neg a = integral (B.limit - integral a)

  module _ (attempts : List B.Attempt) where
    unfoldable pub exchange : ℕ → B.Cell → Run (ℕ × B.Cell)
    exchange replacement c = modify (λ o. integral replacement) attempts c

    unfoldable pub fetch_add : ℕ → B.Cell → Run (ℕ × B.Cell)
    fetch_add c v = modify (λ o. add o c) attempts v

    unfoldable pub fetch_sub : ℕ → B.Cell → Run (ℕ × B.Cell)
    unfolding fetch_add
    fetch_sub c v = fetch_add (neg c) v

    unfoldable pub fetch_and : ℕ → B.Cell → Run (ℕ × B.Cell)
    fetch_and c v = modify (λ o. integral (bit_and o c)) attempts v

    unfoldable pub fetch_or : ℕ → B.Cell → Run (ℕ × B.Cell)
    fetch_or c v = modify (λ o. integral (bit_or o c)) attempts v

    unfoldable pub fetch_xor : ℕ → B.Cell → Run (ℕ × B.Cell)
    fetch_xor c v = modify (λ o. integral (bit_xor o c)) attempts v

    -- The operators of `internal_atomic`: what they return, and the storage.
    unfoldable pub and_assign : ℕ → B.Cell → Run (ℕ × B.Cell)
    and_assign c v = fetch_and c v >>= λ (o, v'). ok (integral (bit_and o c), v')

    unfoldable pub or_assign : ℕ → B.Cell → Run (ℕ × B.Cell)
    or_assign c v = fetch_or c v >>= λ (o, v'). ok (integral (bit_or o c), v')

    unfoldable pub xor_assign : ℕ → B.Cell → Run (ℕ × B.Cell)
    xor_assign c v = fetch_xor c v >>= λ (o, v'). ok (integral (bit_xor o c), v')

    unfoldable pub add_assign : ℕ → B.Cell → Run (ℕ × B.Cell)
    add_assign c v = fetch_add c v >>= λ (o, v'). ok (add o c, v')

    unfoldable pub sub_assign : ℕ → B.Cell → Run (ℕ × B.Cell)
    sub_assign c v = fetch_sub c v >>= λ (o, v'). ok (add o (neg c), v')

    unfoldable pub pre_increment : B.Cell → Run (ℕ × B.Cell)
    pre_increment v = fetch_add 1 v >>= λ (o, v'). ok (add o 1, v')

    unfoldable pub post_increment : B.Cell → Run (ℕ × B.Cell)
    post_increment v = fetch_add 1 v

    unfoldable pub pre_decrement : B.Cell → Run (ℕ × B.Cell)
    pre_decrement v = fetch_sub 1 v >>= λ (o, v'). ok (add o (neg 1), v')

    unfoldable pub post_decrement : B.Cell → Run (ℕ × B.Cell)
    post_decrement v = fetch_sub 1 v
