-- ===== src/Atomic/Larger/Laws.antt =====
-- What the operations on a small integer inside a larger word do to it and to its neighbours.
use Prim.Native.Nat.{bit_and}
use native.Mathlib.Nat.{
  mul_comm, add-mul, mod-eq_of_lt, mod-lt, mul-add-mod_self_right, div-add-mod', div-lt_iff_lt-mul,
  mul-add-div_right, div-eq_of_lt,
}
use boost_lockfree.Prelude.{
  ℕ, ◌+◌, ◌-◌, ◌*◌, ◌/◌, ◌%◌, ◌^◌, ◌≤◌, ◌<◌, ◌≡◌, refl, sym, ap, subst, ◌∙◌, arith,
}
use boost_lockfree.Atomic.Bits.{
  and_high, and_around, or_high, or_around, some_power, pow_add, pred_mul, step_le,
}
use boost_lockfree.Atomic.Larger.{width, shift_left, complement, extract, insert}

module _ (k m s : ℕ) where
  abbrev K : ℕ
  K = 2 ^ k

  abbrev M : ℕ
  M = 2 ^ m

  abbrev S : ℕ
  S = 2 ^ s

  N : ℕ
  N = 2 ^ width k m s

  size : 2 ^ width k m s ≡ K * M * S
  size = pow_add (k + m) s ∙ ap (λ (t : ℕ). t * S) (pow_add k m)

  some_word : 0 < 2 ^ width k m s
  some_word = some_power (width k m s)

  -- `~(mask << 8 * sizeof(integral_type))` has ones in the lowest `m` places,
  low_mask : (n : ℕ) → n ≡ 2 ^ width k m s → M ≤ n → n - 1 - (n - 1) * M % n ≡ M - 1
  low_mask n e room =
      let some : 0 < n = omega (arith, some_power m) in
      let over : (n - 1) * M ≡ (M - 1) * n + (n - M) =
        omega (arith, pred_mul n M some, pred_mul M n (some_power m), mul_comm n M) in
      let left : (n - 1) * M % n ≡ n - M =
        ap (λ (t : ℕ). t % n) over
        ∙ mul-add-mod_self_right (M - 1) n (n - M)
        ∙ mod-eq_of_lt (omega (arith, some_power m)) in
      omega (arith, left)

  -- how the places of the word are shared out
  places :
      (2 ^ width k m s ≡ (K - 1) * M * S + M * S)
      × (M * S ≡ (M - 1) * S + S)
      × (M ≤ 2 ^ width k m s)
  places =
      let above : ((K - 1) * M + M) * S ≡ (K - 1) * M * S + M * S = add-mul ((K - 1) * M) M S in
      let all : ((K - 1) * M + M) * S ≡ K * M * S =
        ap (λ (t : ℕ). t * S) (pred_mul K M (some_power k)) in
      let field : (M - 1) * S + S ≡ M * S = pred_mul M S (some_power m) in
      let wide : M ≤ M * S = omega (arith, pred_mul S M (some_power s), mul_comm S M) in
      (omega (arith, size, above, all), omega (arith, field), omega (arith, size, above, all, wide))

  mask-places : shift_left k m s (M - 1) s ≡ (M - 1) * S
  mask-places = mod-eq_of_lt (omega (arith, places.0, places.1, some_power s))

  source-places : (v : ℕ) → v < M → shift_left k m s v s ≡ v * S
  source-places v small = mod-eq_of_lt (omega (arith, places.0, step_le v M S small, some_power s))

  others-places : complement k m s ((M - 1) * S) ≡ (K - 1) * M * S + (S - 1)
  others-places = omega (arith, places.0, places.1, some_power s)

  -- `insert` puts the source in the place of the integer, and leaves the other places as they are.
  insert-places :
      (q c r v : ℕ)
      → q < K
      → c < M
      → r < S
      → v < M
      → insert k m s ((q * M + c) * S + r) v ≡ (q * M + v) * S + r
  unfolding insert
  insert-places q c r v high mid low small =
      let masked : bit_and (v * S) ((M - 1) * S) ≡ v * S =
        ap (λ (t : ℕ). bit_and t ((M - 1) * S)) (plus_zero (v * S))
        ∙ and_high s m v 0 small (some_power s) in
      let kept : bit_and ((q * M + c) * S + r) ((K - 1) * M * S + (S - 1)) ≡ q * M * S + r =
        and_around s (q * M + c) ((K - 1) * M) (q * M) r (and_high m k q c high mid) low in
      rw
        (
          low_mask (2 ^ width k m s) refl places.2,
          mask-places,
          source-places v small,
          others-places,
          masked,
          kept,
        )
        (or_around s v (q * M) (q * M + v) r (or_high m q v small) low)
    where
      plus_zero : (t : ℕ) → t ≡ t + 0
      plus_zero t = omega arith

  pub extract-places : (q c r : ℕ) → c < M → r < S → extract k m s ((q * M + c) * S + r) ≡ c
  unfolding extract
  extract-places q c r mid low =
      let high : ((q * M + c) * S + r) / S ≡ q * M + c =
        mul-add-div_right (some_power s) (q * M + c) r
        ∙ ap (λ (t : ℕ). q * M + c + t) (div-eq_of_lt low)
        ∙ omega arith in
      rw high (mul-add-mod_self_right q M c ∙ mod-eq_of_lt mid)

  -- What a word becomes when the small integer in it becomes `v`.
  pub record IsField (t v t' : ℕ) : Type 0 where
    pub field : extract k m s t' ≡ v
    pub below : t' % 2 ^ s ≡ t % 2 ^ s
    pub above : t' / 2 ^ s / 2 ^ m ≡ t / 2 ^ s / 2 ^ m
    pub within : t' < 2 ^ width k m s

  fields-IsField :
      (q c r v : ℕ)
      → q < K
      → c < M
      → r < S
      → v < M
      → IsField ((q * M + c) * S + r) v ((q * M + v) * S + r)
  fields-IsField q c r v high mid low small =
      let whole : q * M + v < K * M = omega (arith, step_le q K M high) in
      record {
        field = extract-places q v r small low;
        below =
            mul-add-mod_self_right (q * M + v) S r ∙ sym (mul-add-mod_self_right (q * M + c) S r);
        above = top v small ∙ sym (top c mid);
        within = omega (arith, size, step_le (q * M + v) (K * M) S whole);
      }
    where
      top : (x : ℕ) → x < M → ((q * M + x) * S + r) / S / M ≡ q
      top x fits =
          ap (λ (t : ℕ). t / M)
            (mul-add-div_right (some_power s) (q * M + x) r
              ∙ ap (λ (t : ℕ). q * M + x + t) (div-eq_of_lt low)
              ∙ plus_zero (q * M + x))
          ∙ mul-add-div_right (some_power m) q x
          ∙ ap (λ (t : ℕ). q + t) (div-eq_of_lt fits)
          ∙ plus_zero q
        where
          plus_zero : (t : ℕ) → t + 0 ≡ t
          plus_zero t = omega arith

  -- Each word falls into its places.
  module _ (t : ℕ) (word_fits : t < 2 ^ width k m s) where
    split : t ≡ (t / S / M * M + t / S % M) * S + t % S
    split = sym (div-add-mod' t S) ∙ ap (λ (x : ℕ). x * S + t % S) (sym (div-add-mod' (t / S) M))

    high-lt : t / S / M < K
    high-lt =
        (div-lt_iff_lt-mul (some_power m)).1
          ((div-lt_iff_lt-mul (some_power s)).1 (omega (arith, size)))

    insert-split : (v : ℕ) → v < M → insert k m s t v ≡ (t / S / M * M + v) * S + t % S
    insert-split v small =
        ap (λ (x : ℕ). insert k m s x v) split
        ∙ insert-places (t / S / M) (t / S % M) (t % S) v high-lt (mod-lt (t / S) (some_power m))
            (mod-lt t (some_power s)) small

    -- `insert` changes the small integer and no other bit of the word; with what `extract` found it
    -- changes nothing. The word and the integer have their sizes.
    pub insert-IsField :
        (v : ℕ)
        → v < 2 ^ m
        → IsField t v (insert k m s t v) × (insert k m s t (extract k m s t) ≡ t)
    unfolding extract
    insert-IsField v small = (
      subst (λ x. IsField x v (insert k m s t v)) (sym split)
          (subst (IsField ((t / S / M * M + t / S % M) * S + t % S) v) (sym (insert-split v small))
            (fields-IsField (t / S / M) (t / S % M) (t % S) v high-lt
              (mod-lt (t / S) (some_power m)) (mod-lt t (some_power s)) small)),
      insert-split (t / S % M) (mod-lt (t / S) (some_power m)) ∙ sym split,
    )
