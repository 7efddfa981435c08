-- ===== src/Atomic/Larger.antt =====
-- boost/atomic/detail/builder.hpp: `build_base_from_larger_type`, a small integer inside an atomic word
-- that is larger. The integer has `m` bits, `s` bits of the word are below it and `k` above; Address
-- says which these are for the address of the integer.
pub mod Address
pub mod Laws
pub mod Linear
pub mod Examples
use Prim.Native.Nat.{bit_and, bit_or}
use boost_lockfree.Prelude.{ℕ, ◌+◌, ◌-◌, ◌*◌, ◌/◌, ◌%◌, ◌^◌, Bool, List, Run, ok, ◌>>=◌}
use boost_lockfree.Atomic.{modify, integral}
use boost_lockfree.Atomic.Weak.{Attempt, word}
use boost_lockfree.Atomic.Weak as Weak

module _ (k m s : ℕ) where
  -- the number of bits of `larger_integral_type`, and its `<<` and `~`
  abbrev pub width : ℕ
  width = k + m + s

  abbrev pub shift_left : ℕ → ℕ → ℕ
  shift_left a n = a * 2 ^ n % 2 ^ width

  abbrev pub complement : ℕ → ℕ
  complement a = 2 ^ width - 1 - a

  unfoldable pub extract : ℕ → ℕ
  extract v = v / 2 ^ s % 2 ^ m

  unfoldable pub insert : ℕ → ℕ → ℕ
  insert target source =
      let mask = complement (shift_left (2 ^ width - 1) m) in
      let mask' = shift_left mask s in
      let tmp = shift_left source s in
      bit_or (bit_and tmp mask') (bit_and target (complement mask'))

  unfoldable pub load : ℕ → ℕ
  unfolding extract
  load v = extract v

  -- The first read of the word comes before what the other threads do.
  unfoldable pub compare_exchange_weak : Attempt → ℕ → ℕ → ℕ → Bool × ℕ × ℕ
  unfolding extract insert
  compare_exchange_weak a expected desired v =
      let expected_ = insert v expected in
      let desired_ = insert expected_ desired in
      let (success, expected_', v') = Weak.compare_exchange_weak a expected_ desired_ v in
      (success, extract expected_', v')

  unfoldable pub store : List Attempt → ℕ → ℕ → Run ℕ
  unfolding insert
  store attempts v i =
      modify (word width) (λ expected. insert (integral (word width) expected) v) attempts i
      >>= λ (expected, i'). ok i'
