-- ===== src/Atomic/Bits.antt =====
-- Fields of bits in a word: what masks keep, and what the union of fields is.
use Prim.Native.Nat.{max, digits, bit_and, bit_or, bit_and-bitwise, bit_or-bitwise}
use native.Mathlib.Nat.{pow-suc, one-le-pow, add-mul}
use boost_lockfree.Prelude.{
  ℕ, zero, suc, ◌+◌, ◌-◌, ◌*◌, ◌/◌, ◌%◌, ◌^◌, ◌≤◌, ◌<◌, min, ◌≡◌, refl, ap, ◌∙◌, arith,
}

-- More fuel than the first number does not change the digits.
same_digits :
    (z : ℕ → ℕ) (f : ℕ → ℕ → ℕ) (k l a b : ℕ) → a ≤ k → a ≤ l → digits z f k a b ≡ digits z f l a b
same_digits z f zero zero zero b p q = refl
same_digits z f zero (suc l) zero b p q = refl
same_digits z f (suc k) zero zero b p q = refl
same_digits z f (suc k) (suc l) zero b p q = refl
same_digits z f zero l (suc a) b p q = absurd (omega arith)
same_digits z f (suc k) zero (suc a) b p q = absurd (omega arith)
same_digits z f (suc k) (suc l) (suc a) b p q =
    ap (λ (t : ℕ). t * 2 + f (suc a % 2) (b % 2))
      (same_digits z f k l (suc a / 2) (b / 2) (omega arith) (omega arith))

-- The lowest digit apart, for `&` and for `|`.
and_halves : (a b : ℕ) → bit_and a b ≡ bit_and (a / 2) (b / 2) * 2 + min (a % 2) (b % 2)
and_halves zero b = simp bit_and-bitwise (omega arith)
and_halves (suc a) b = simp bit_and-bitwise (
    ap (λ (t : ℕ). t * 2 + min (suc a % 2) (b % 2))
      (same_digits (λ x. 0) min a (suc a / 2) (suc a / 2) (b / 2) (omega arith) (omega arith)))

or_halves : (a b : ℕ) → bit_or a b ≡ bit_or (a / 2) (b / 2) * 2 + max (a % 2) (b % 2)
or_halves zero b = simp bit_or-bitwise (omega arith)
or_halves (suc a) b = simp bit_or-bitwise (
    ap (λ (t : ℕ). t * 2 + max (suc a % 2) (b % 2))
      (same_digits (λ x. x) max a (suc a / 2) (suc a / 2) (b / 2) (omega arith) (omega arith)))

-- A field, one place higher.
pub shifted : (x k : ℕ) → x * 2 ^ suc k ≡ 2 * (x * 2 ^ k)
shifted x k = omega (arith, ap (λ (t : ℕ). x * t) (pow-suc 2 k))

pub some_power : (k : ℕ) → 0 < 2 ^ k
some_power k = one-le-pow k 2 (omega arith)

-- A mask of as many ones as the word has bits.
pub and_all : (k a : ℕ) → a < 2 ^ k → bit_and a (2 ^ k - 1) ≡ a
and_all zero zero h = refl
and_all zero (suc a) h = absurd (omega arith)
and_all (suc k) a h =
    let half : (2 ^ suc k - 1) / 2 ≡ 2 ^ k - 1 = omega (arith, pow-suc 2 k, some_power k) in
    let odd : (2 ^ suc k - 1) % 2 ≡ 1 = omega (arith, pow-suc 2 k, some_power k) in
    and_halves a (2 ^ suc k - 1)
    ∙ rw (half, odd, and_all k (a / 2) (omega (arith, pow-suc 2 k))) (omega arith)

pub and-zero : (k a : ℕ) → a ≤ k → bit_and a 0 ≡ 0
and-zero k zero h = simp bit_and-bitwise refl
and-zero zero (suc a) h = absurd (omega arith)
and-zero (suc k) (suc a) h =
    omega (arith, and_halves (suc a) 0, and-zero k (suc a / 2) (omega arith))

-- A mask that keeps what stands above the lowest `m` places,
pub and_high :
    (m k q r : ℕ)
    → q < 2 ^ k
    → r < 2 ^ m
    → bit_and (q * 2 ^ m + r) ((2 ^ k - 1) * 2 ^ m) ≡ q * 2 ^ m
and_high zero k q r fits low =
    let value : q * 2 ^ 0 + r ≡ q = omega (arith, low) in
    let mask : (2 ^ k - 1) * 2 ^ 0 ≡ 2 ^ k - 1 = omega arith in
    rw (value, mask, and_all k q fits) (omega arith)
and_high (suc m) k q r fits low =
    let value : (q * 2 ^ suc m + r) / 2 ≡ q * 2 ^ m + r / 2 = omega (arith, shifted q m) in
    let mask : (2 ^ k - 1) * 2 ^ suc m / 2 ≡ (2 ^ k - 1) * 2 ^ m =
      omega (arith, shifted (2 ^ k - 1) m) in
    let even : (2 ^ k - 1) * 2 ^ suc m % 2 ≡ 0 = omega (arith, shifted (2 ^ k - 1) m) in
    let ih = and_high m k q (r / 2) fits (omega (arith, pow-suc 2 m, low)) in
    and_halves (q * 2 ^ suc m + r) ((2 ^ k - 1) * 2 ^ suc m)
    ∙ rw (value, mask, even, ih) (omega (arith, shifted q m))

-- and one that keeps the lowest `s` places as well.
pub and_around :
    (s x y z r : ℕ)
    → bit_and x y ≡ z
    → r < 2 ^ s
    → bit_and (x * 2 ^ s + r) (y * 2 ^ s + (2 ^ s - 1)) ≡ z * 2 ^ s + r
and_around zero x y z r e low =
    let value : x * 2 ^ 0 + r ≡ x = omega (arith, low) in
    let mask : y * 2 ^ 0 + (2 ^ 0 - 1) ≡ y = omega arith in rw (value, mask, e) (omega (arith, low))
and_around (suc s) x y z r e low =
    let value : (x * 2 ^ suc s + r) / 2 ≡ x * 2 ^ s + r / 2 = omega (arith, shifted x s) in
    let mask : (y * 2 ^ suc s + (2 ^ suc s - 1)) / 2 ≡ y * 2 ^ s + (2 ^ s - 1) =
      omega (arith, shifted y s, pow-suc 2 s, some_power s) in
    let odd : (y * 2 ^ suc s + (2 ^ suc s - 1)) % 2 ≡ 1 =
      omega (arith, shifted y s, pow-suc 2 s, some_power s) in
    let ih = and_around s x y z (r / 2) e (omega (arith, pow-suc 2 s, low)) in
    and_halves (x * 2 ^ suc s + r) (y * 2 ^ suc s + (2 ^ suc s - 1))
    ∙ rw (value, mask, odd, ih) (omega (arith, shifted x s, shifted z s))

-- The union of a field of `m` places with what stands above them,
pub or_high : (m q v : ℕ) → v < 2 ^ m → bit_or v (q * 2 ^ m) ≡ q * 2 ^ m + v
or_high zero q v low =
    let none : v ≡ 0 = omega (arith, low) in rw none (simp bit_or-bitwise (omega arith))
or_high (suc m) q v low =
    let half : q * 2 ^ suc m / 2 ≡ q * 2 ^ m = omega (arith, shifted q m) in
    let even : q * 2 ^ suc m % 2 ≡ 0 = omega (arith, shifted q m) in
    let ih = or_high m q (v / 2) (omega (arith, pow-suc 2 m, low)) in
    or_halves v (q * 2 ^ suc m) ∙ rw (half, even, ih) (omega (arith, shifted q m))

-- and with the lowest `s` places.
pub or_around :
    (s x y z r : ℕ)
    → bit_or x y ≡ z
    → r < 2 ^ s
    → bit_or (x * 2 ^ s) (y * 2 ^ s + r) ≡ z * 2 ^ s + r
or_around zero x y z r e low =
    let value : x * 2 ^ 0 ≡ x = omega arith in
    let other : y * 2 ^ 0 + r ≡ y = omega (arith, low) in rw (value, other, e) (omega (arith, low))
or_around (suc s) x y z r e low =
    let value : x * 2 ^ suc s / 2 ≡ x * 2 ^ s = omega (arith, shifted x s) in
    let even : x * 2 ^ suc s % 2 ≡ 0 = omega (arith, shifted x s) in
    let other : (y * 2 ^ suc s + r) / 2 ≡ y * 2 ^ s + r / 2 = omega (arith, shifted y s) in
    let ih = or_around s x y z (r / 2) e (omega (arith, pow-suc 2 s, low)) in
    or_halves (x * 2 ^ suc s) (y * 2 ^ suc s + r)
    ∙ rw (value, even, other, ih) (omega (arith, shifted y s, shifted z s))

pub pow_add : (j k : ℕ) → 2 ^ (j + k) ≡ 2 ^ j * 2 ^ k
pow_add j zero = let same : j + 0 ≡ j = omega arith in ap (λ (t : ℕ). 2 ^ t) same ∙ omega arith
pow_add j (suc k) =
    let later : j + suc k ≡ suc (j + k) = omega arith in
    ap (λ (t : ℕ). 2 ^ t) later ∙ omega (arith, pow-suc 2 (j + k), pow_add j k, shifted (2 ^ j) k)

pub pred_mul : (n x : ℕ) → 0 < n → (n - 1) * x + x ≡ n * x
pred_mul n x some =
    let back : n - 1 + 1 ≡ n = omega (arith, some) in
    let split : (n - 1 + 1) * x ≡ (n - 1) * x + 1 * x = add-mul (n - 1) 1 x in
    omega (arith, split, ap (λ (t : ℕ). t * x) back)

-- A place more, and a whole place is left.
pub step_le : (v x y : ℕ) → v < x → v * y + y ≤ x * y
step_le v x y below =
    let rest : v + (x - v) ≡ x = omega (arith, below) in
    let some : 0 < x - v = omega (arith, below) in
    omega (arith, add-mul v (x - v) y, pred_mul (x - v) y some, ap (λ (t : ℕ). t * y) rest)
