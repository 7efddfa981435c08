-- ===== src/Atomic/Larger/Address.antt =====
-- boost/atomic/detail/builder.hpp: `build_base_from_larger_type`, where in memory the larger word of a
-- small integer is and where in the word the integer, on either kind of machine. A word has `2 ^ p`
-- bytes, the integer `2 ^ j`, and an address `q + p` bits.
use Prim.Native.Nat.{bit_and}
use native.Mathlib.Nat.{
  mod-lt, div-add-mod', div-lt_iff_lt-mul, add-mul, mul_assoc, mod-mod, mul-add-mod_self_right,
}
use boost_lockfree.Prelude.{
  ℕ, zero, suc, ◌+◌, ◌-◌, ◌*◌, ◌/◌, ◌%◌, ◌^◌, ◌≤◌, ◌<◌, ◌≡◌, sym, ap, subst, ◌∙◌, arith,
}
use boost_lockfree.Atomic.Bits.{
  and-zero, and_high, and_around, some_power, pow_add, pred_mul, step_le,
}
use boost_lockfree.Atomic.Larger.{width, extract}
use boost_lockfree.Atomic.Larger.Laws.{extract-places}

-- The number in the `n` bytes from `a` on, with the low byte first, and with the high byte first.
abbrev pub word_little : (ℕ → ℕ) → ℕ → ℕ → ℕ
word_little mem a zero = 0
word_little mem a (suc n) = mem a + 256 * word_little mem (a + 1) n

abbrev pub word_big : (ℕ → ℕ) → ℕ → ℕ → ℕ
word_big mem a zero = 0
word_big mem a (suc n) = mem a * 2 ^ (8 * n) + word_big mem (a + 1) n

byte_more : (n : ℕ) → 2 ^ (8 * suc n) ≡ 256 * 2 ^ (8 * n)
byte_more n =
    let bits : 8 * suc n ≡ 8 + 8 * n = omega arith in ap (λ (t : ℕ). 2 ^ t) bits ∙ pow_add 8 (8 * n)

module _ (mem : ℕ → ℕ) (bytes : (a : ℕ) → mem a < 256) where
  little-lt : (a n : ℕ) → word_little mem a n < 2 ^ (8 * n)
  little-lt a zero = omega arith
  little-lt a (suc n) = omega (arith, little-lt (a + 1) n, bytes a, byte_more n)

  big-lt : (a n : ℕ) → word_big mem a n < 2 ^ (8 * n)
  big-lt a zero = omega arith
  big-lt a (suc n) =
      omega (arith, big-lt (a + 1) n, step_le (mem a) 256 (2 ^ (8 * n)) (bytes a), byte_more n)

  little-split :
      (a x y : ℕ)
      → word_little mem a (x + y) ≡ word_little mem (a + x) y * 2 ^ (8 * x) + word_little mem a x
  little-split a zero y =
      let count : 0 + y ≡ y = omega arith in
      let here : a + 0 ≡ a = omega arith in rw (count, here) (omega arith)
  little-split a (suc x) y =
      let count : suc x + y ≡ suc (x + y) = omega arith in
      let there : a + suc x ≡ a + 1 + x = omega arith in
      let more = ap (λ (t : ℕ). word_little mem (a + 1 + x) y * t) (byte_more x) in
      rw (count, there) (omega (arith, little-split (a + 1) x y, more))

  big-split :
      (a x y : ℕ) → word_big mem a (x + y) ≡ word_big mem a x * 2 ^ (8 * y) + word_big mem (a + x) y
  big-split a zero y =
      let count : 0 + y ≡ y = omega arith in
      let here : a + 0 ≡ a = omega arith in rw (count, here) (omega arith)
  big-split a (suc x) y =
      let count : suc x + y ≡ suc (x + y) = omega arith in
      let there : a + suc x ≡ a + 1 + x = omega arith in
      let bits : 8 * (x + y) ≡ 8 * x + 8 * y = omega arith in
      let power =
        ap (λ (t : ℕ). mem a * t) (ap (λ (t : ℕ). 2 ^ t) bits ∙ pow_add (8 * x) (8 * y)) in
      let share = add-mul (mem a * 2 ^ (8 * x)) (word_big mem (a + 1) x) (2 ^ (8 * y)) in
      rw (count, there) (omega (arith, big-split (a + 1) x y, power, share))

module _ (q p j : ℕ) where
  -- `address&=~(sizeof(larger_integral_type)-1)`
  unfoldable pub get_base : ℕ → ℕ
  get_base address = bit_and address (2 ^ (q + p) - 1 - (2 ^ p - 1))

  -- `address&=(sizeof(larger_integral_type)-1)`
  unfoldable pub get_offset : ℕ → ℕ
  get_offset address = bit_and address (2 ^ p - 1)

  -- `get_shift` with `BOOST_LITTLE_ENDIAN`, and with `BOOST_BIG_ENDIAN`.
  unfoldable pub get_shift_little : ℕ → ℕ
  unfolding get_offset
  get_shift_little address = get_offset address * 8

  unfoldable pub get_shift_big : ℕ → ℕ
  unfolding get_offset
  get_shift_big address = (2 ^ p - 2 ^ j - get_offset address) * 8

  split : (address : ℕ) → address / 2 ^ p * 2 ^ p + address % 2 ^ p ≡ address
  split address = div-add-mod' address (2 ^ p)

  pub get_offset-mod : (address : ℕ) → get_offset address ≡ address % 2 ^ p
  unfolding get_offset
  get_offset-mod address =
      let low : address % 2 ^ p < 2 ^ p = mod-lt address (some_power p) in
      let none : bit_and (address / 2 ^ p) 0 ≡ 0 =
        and-zero (address / 2 ^ p) (address / 2 ^ p) (omega arith) in
      let mask : 0 * 2 ^ p + (2 ^ p - 1) ≡ 2 ^ p - 1 = omega arith in
      ap (λ (t : ℕ). bit_and t (2 ^ p - 1)) (sym (split address))
      ∙ ap (λ (t : ℕ). bit_and (address / 2 ^ p * 2 ^ p + address % 2 ^ p) t) (sym mask)
      ∙ and_around p (address / 2 ^ p) 0 0 (address % 2 ^ p) none low
      ∙ omega arith

  pub get_base-div :
      (address : ℕ) → address < 2 ^ (q + p) → get_base address ≡ address / 2 ^ p * 2 ^ p
  unfolding get_base
  get_base-div address fits =
      let low : address % 2 ^ p < 2 ^ p = mod-lt address (some_power p) in
      let high : address / 2 ^ p < 2 ^ q =
        (div-lt_iff_lt-mul (some_power p)).1 (subst (λ x. address < x) (pow_add q p) fits) in
      let mask : 2 ^ (q + p) - 1 - (2 ^ p - 1) ≡ (2 ^ q - 1) * 2 ^ p =
        omega (arith, pow_add q p, pred_mul (2 ^ q) (2 ^ p) (some_power q), some_power p) in
      ap (λ (t : ℕ). bit_and t (2 ^ (q + p) - 1 - (2 ^ p - 1))) (sym (split address))
      ∙ ap (λ (t : ℕ). bit_and (address / 2 ^ p * 2 ^ p + address % 2 ^ p) t) mask
      ∙ and_high p q (address / 2 ^ p) (address % 2 ^ p) high low

module _ (mem : ℕ → ℕ) (bytes : (a : ℕ) → mem a < 256) where
  -- The bytes of an integer of `n` bytes that stands `o` bytes behind the start of a word.
  little-place :
      (k b o n r : ℕ)
      → extract k (8 * n) (8 * o) (word_little mem b (o + (n + r))) ≡ word_little mem (b + o) n
  little-place k b o n r =
      let inner =
        ap (λ (t : ℕ). t * 2 ^ (8 * o) + word_little mem b o)
          (little-split mem bytes (b + o) n r) in
      ap (extract k (8 * n) (8 * o)) (little-split mem bytes b o (n + r) ∙ inner)
      ∙ extract-places k (8 * n) (8 * o) (word_little mem (b + o + n) r) (word_little mem (b + o) n)
          (word_little mem b o) (little-lt mem bytes (b + o) n) (little-lt mem bytes b o)

  big-place :
      (k b o n r : ℕ)
      → extract k (8 * n) (8 * r) (word_big mem b (o + n + r)) ≡ word_big mem (b + o) n
  big-place k b o n r =
      let inner =
        ap (λ (t : ℕ). t * 2 ^ (8 * r) + word_big mem (b + (o + n)) r)
          (big-split mem bytes b o n) in
      ap (extract k (8 * n) (8 * r)) (big-split mem bytes b (o + n) r ∙ inner)
      ∙ extract-places k (8 * n) (8 * r) (word_big mem b o) (word_big mem (b + o) n)
          (word_big mem (b + (o + n)) r) (big-lt mem bytes (b + o) n)
          (big-lt mem bytes (b + (o + n)) r)

-- An aligned integer does not go over the end of its word.
aligned-within :
    (i j address : ℕ) → address % 2 ^ j ≡ 0 → address % 2 ^ (i + j) + 2 ^ j ≤ 2 ^ (i + j)
aligned-within i j address aligned =
    let r = address % 2 ^ (i + j) in
    let low : r < 2 ^ i * 2 ^ j =
      subst (λ (t : ℕ). r < t) (pow_add i j) (mod-lt address (some_power (i + j))) in
    let above : address / 2 ^ (i + j) * 2 ^ (i + j) ≡ address / 2 ^ (i + j) * 2 ^ i * 2 ^ j =
      ap (λ (t : ℕ). address / 2 ^ (i + j) * t) (pow_add i j)
      ∙ sym (mul_assoc (address / 2 ^ (i + j)) (2 ^ i) (2 ^ j)) in
    let parts : address ≡ (address / 2 ^ (i + j) * 2 ^ i + r / 2 ^ j) * 2 ^ j + r % 2 ^ j = omega (
      arith,
      div-add-mod' address (2 ^ (i + j)),
      div-add-mod' r (2 ^ j),
      above,
      add-mul (address / 2 ^ (i + j) * 2 ^ i) (r / 2 ^ j) (2 ^ j),
    ) in
    let rest : r % 2 ^ j ≡ 0 =
      sym (mod-mod r (2 ^ j))
      ∙ sym (mul-add-mod_self_right (address / 2 ^ (i + j) * 2 ^ i + r / 2 ^ j) (2 ^ j) (r % 2 ^ j))
      ∙ ap (λ (t : ℕ). t % 2 ^ j) (sym parts)
      ∙ aligned in
    let fits : r / 2 ^ j < 2 ^ i = (div-lt_iff_lt-mul (some_power j)).1 low in
    omega
      (arith, pow_add i j, step_le (r / 2 ^ j) (2 ^ i) (2 ^ j) fits, div-add-mod' r (2 ^ j), rest)

-- The integer of `2 ^ j` bytes at an aligned address is a field of the word of `2 ^ (i + j)` bytes that
-- `get_base` finds: the word reaches from the base over the integer, and what `extract` takes out of it
-- with the shift of `get_shift` is what the bytes at the address say, with the low byte first on a
-- little-endian machine and with the high byte first on a big-endian one. `mem` are the bytes of the
-- memory; an address has `q + i + j` bits.
pub field_at_address :
    (q i j : ℕ) (mem : ℕ → ℕ)
    → ((a : ℕ) → mem a < 256)
    → (address : ℕ) → address < 2 ^ (q + (i + j))
    → address % 2 ^ j ≡ 0
    → let base = get_base q (i + j) j address in
      let little = get_shift_little q (i + j) j address in
      let big = get_shift_big q (i + j) j address in
      (base + get_offset q (i + j) j address ≡ address)
      × (address + 2 ^ j ≤ base + 2 ^ (i + j))
      × (width big (8 * 2 ^ j) little ≡ 8 * 2 ^ (i + j))
      × (extract big (8 * 2 ^ j) little (word_little mem base (2 ^ (i + j)))
          ≡ word_little mem address (2 ^ j))
      × (extract little (8 * 2 ^ j) big (word_big mem base (2 ^ (i + j)))
          ≡ word_big mem address (2 ^ j))
unfolding get_shift_little get_shift_big
field_at_address q i j mem bytes address fits aligned =
    let p = i + j in
    let o = address % 2 ^ p in
    let n = 2 ^ j in
    let r = 2 ^ p - 2 ^ j - o in
    let within = aligned-within i j address aligned in
    let base = address / 2 ^ p * 2 ^ p in
    let whole = div-add-mod' address (2 ^ p) in
    let at_little : o * 8 ≡ 8 * o = omega arith in
    let at_big : r * 8 ≡ 8 * r = omega arith in
    let bytes_little : 2 ^ p ≡ o + (n + r) = omega (arith, within) in
    let bytes_big : 2 ^ p ≡ o + n + r = omega (arith, within) in
    rw (get_base-div q p j address fits, get_offset-mod q p j address)
      (
        whole,
        omega (arith, whole, within),
        omega (arith, within),
        ap (λ (t : ℕ). extract (r * 8) (8 * n) t (word_little mem base (2 ^ p))) at_little
            ∙ ap (λ (t : ℕ). extract (r * 8) (8 * n) (8 * o) (word_little mem base t)) bytes_little
            ∙ little-place mem bytes (r * 8) base o n r
            ∙ ap (λ (t : ℕ). word_little mem t n) whole,
        ap (λ (t : ℕ). extract (o * 8) (8 * n) t (word_big mem base (2 ^ p))) at_big
            ∙ ap (λ (t : ℕ). extract (o * 8) (8 * n) (8 * r) (word_big mem base t)) bytes_big
            ∙ big-place mem bytes (o * 8) base o n r
            ∙ ap (λ (t : ℕ). word_big mem t n) whole,
      )
