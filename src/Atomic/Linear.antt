-- ===== src/Atomic/Linear.antt =====
-- The operations take effect at one moment: what they return and leave is what the atomic operation
-- does to the value that it then has.
use native.Mathlib.Nat.{mod-eq_of_lt, add-mod-mod, mod-lt}
use Prim.Native.Nat.{bit_and, bit_or, bit_xor}
use boost_lockfree.Prelude.{
  ℕ, zero, suc, ◌+◌, ◌-◌, ◌%◌, ◌≤◌, ◌<◌, ◌≡◌, ◌⊎◌, refl, sym, ap, subst, fun_ext, ◌∙◌, arith, Bool,
  true, false, ◌==◌, if◌then◌else◌, List, [], ◌∷◌, Run, ok, ◌>>=◌, Returns, length, Bool-cases, inl,
  inr,
}
use boost_lockfree.Atomic.{
  Base, compare_exchange_strong, modify_loop, modify, fetch_add, fetch_sub, add, neg, integral,
  and_assign, or_assign, xor_assign, add_assign, sub_assign, pre_increment, pre_decrement,
  fetch_and, fetch_or, fetch_xor,
}

module _ (B : Base) where
  -- What the other threads make of the storage in the first `k` attempts.
  abbrev pub seen : ℕ → List B.Attempt → B.Cell → B.Cell
  seen zero attempts c = c
  seen (suc k) [] c = c
  seen (suc k) (a ∷ more) c = seen k more (B.others a c)

  -- The call of attempt `a` that finds the storage as it was at `c`: it finds the value `o` there and
  -- succeeds in putting `f o` in its place, which leaves the storage as `c'`.
  abbrev pub Swaps : (ℕ → ℕ) → B.Attempt → B.Cell → ℕ × B.Cell → Type 0
  Swaps f a c (o, c') =
      (o ≡ B.value (B.others a c))
      × (B.compare_exchange_weak a o (f o) c ≡ (true, o, c'))
      × (B.value c' ≡ f o)

  -- The outcome of a modification by `f` is that of one call that succeeds, and nothing else has been
  -- written: the call of the first attempt, or a later one, on what the others have left; the call
  -- behind the last attempt is calm.
  abbrev pub Modified : (ℕ → ℕ) → List B.Attempt → B.Cell → ℕ × B.Cell → Type 0
  Modified f [] c out = Swaps f B.calm c out
  Modified f (a ∷ more) c out = Swaps f a c out ⊎ Modified f more (B.others a c) out

  module _ (f : ℕ → ℕ) (fits : (o : ℕ) → f o < B.limit) where
    -- The last attempt finds the value that it expects.
    modify_loop-last :
        (c₀ c : B.Cell)
        → B.value c₀ ≡ B.value c
        → Returns (Modified f [] c) (modify_loop B f [] (B.value c₀) c)
    unfolding modify_loop
    modify_loop-last c₀ c same =
        let (c', e, new) = B.calm_swaps c₀ c (f (B.value c₀)) (fits (B.value c₀)) same in
        ((B.value c₀, c'), rw e refl, (same ∙ ap B.value (sym (B.others-calm c)), e, new))

    module _ (a : B.Attempt) (more : List B.Attempt) (c₀ c : B.Cell) where
      abbrev now : B.Cell
      now = B.others a c

      attempt-failed :
          B.compare_exchange_weak a (B.value c₀) (f (B.value c₀)) c ≡ (false, B.value now, now)
          → modify_loop B f (a ∷ more) (B.value c₀) c ≡ modify_loop B f more (B.value now) now
      unfolding modify_loop
      attempt-failed e = rw e refl

      attempt-swapped :
          (c' : B.Cell)
          → B.compare_exchange_weak a (B.value c₀) (f (B.value c₀)) c ≡ (true, B.value c₀, c')
          → modify_loop B f (a ∷ more) (B.value c₀) c ≡ ok (B.value c₀, c')
      unfolding modify_loop
      attempt-swapped c' e = rw e refl

    -- A failed call leaves `o` at the value, so that the next finds it there, or finds what the
    -- other threads have made of it.
    modify_loop-Modified :
        (attempts : List B.Attempt) (c₀ c : B.Cell)
        → B.value c₀ ≡ B.value c
        → Returns (Modified f attempts c) (modify_loop B f attempts (B.value c₀) c)
    modify_loop-Modified [] c₀ c same = modify_loop-last c₀ c same
    modify_loop-Modified (a ∷ more) c₀ c same =
        let (out, run, after) = modify_loop-Modified more (B.others a c) (B.others a c) refl in
        elim (B.fails_or_swaps a c₀ c (f (B.value c₀)) (fits (B.value c₀))) [
          | inl failed ↦ (out, attempt-failed a more c₀ c failed ∙ run, inr after)
          | inr (found, c', e, new) ↦
              ((B.value c₀, c'), attempt-swapped a more c₀ c c' e, inl (found, e, new))
        ]

    -- A modification by an `f` whose results are values returns, and its outcome is that of a single
    -- successful `compare_exchange_weak` of the run: that call found the value that is returned, put in
    -- its place what `f` makes of it, and left the storage as the operation leaves it, whatever the
    -- other threads do before each call and however often the calls fail for no reason.
    pub modify_linear :
        (attempts : List B.Attempt) (c : B.Cell)
        → Returns (Modified f attempts c) (modify B f attempts c)
    unfolding modify
    modify_linear attempts c = modify_loop-Modified attempts c c refl

  -- The outcome of a strong compare and swap: at some moment it compared the value with `expected`,
  -- it answers whether they were equal, `expected` holds the value, and exactly if they were equal
  -- the value has become `desired`.
  abbrev pub Compared : ℕ → ℕ → List B.Attempt → B.Cell → Bool × ℕ × B.Cell → Type 0
  Compared expected desired attempts c (done, expected', c') =
      (k : ℕ) × (k ≤ length attempts)
      × (done ≡ (expected == B.value (seen k attempts c)))
      × (expected' ≡ B.value (seen k attempts c))
      × (B.value c' ≡ (if done then desired else expected'))

  module _ (a : B.Attempt) (more : List B.Attempt) (e d : ℕ) (c : B.Cell) where
    abbrev here : B.Cell
    here = B.others a c

    compare-retried :
        B.compare_exchange_weak a e d c ≡ (false, B.value here, here)
        → (e == B.value here) ≡ true
        → compare_exchange_strong B (a ∷ more) e d c ≡ compare_exchange_strong B more e d here
    unfolding compare_exchange_strong
    compare-retried failed same = rw (failed, same) refl

    compare-other :
        B.compare_exchange_weak a e d c ≡ (false, B.value here, here)
        → (e == B.value here) ≡ false
        → compare_exchange_strong B (a ∷ more) e d c ≡ ok (false, B.value here, here)
    unfolding compare_exchange_strong
    compare-other failed other = rw (failed, other) refl

    compare-swapped :
        (c' : B.Cell)
        → B.compare_exchange_weak a e d c ≡ (true, e, c')
        → compare_exchange_strong B (a ∷ more) e d c ≡ ok (true, e, c')
    unfolding compare_exchange_strong
    compare-swapped c' swapped = rw swapped refl

  calm_fails :
      (c₀ c : B.Cell) (d : ℕ)
      → d < B.limit
      → (B.value c₀ == B.value c) ≡ false
      → B.compare_exchange_weak B.calm (B.value c₀) d c ≡ (false, B.value c, c)
  calm_fails c₀ c d small other = elim (B.fails_or_swaps B.calm c₀ c d small) [
    | inl e ↦ e ∙ ap (λ x. (false, B.value x, x)) (B.others-calm c)
    | inr (found, c₁, swapped, new) ↦ absurd (ground (arith, ap B.value (B.others-calm c)))
  ]

  -- The call behind the end of the list compares for good.
  compare-last :
      (c₀ c : B.Cell) (d : ℕ)
      → d < B.limit
      → Returns (Compared (B.value c₀) d [] c) (compare_exchange_strong B [] (B.value c₀) d c)
  unfolding compare_exchange_strong
  compare-last c₀ c d small = elim (Bool-cases (B.value c₀ == B.value c)) [
    | inl same ↦
        let (c', e, new) = B.calm_swaps c₀ c d small (ground arith) in
        ((true, B.value c₀, c'), rw e refl, (0, omega arith, sym same, ground arith, new))
    | inr other ↦ (
      (false, B.value c, c),
      rw (calm_fails c₀ c d small other, other) refl,
      (0, omega arith, sym other, refl, refl),
    )
  ]

  -- `compare_exchange_strong` returns, and never fails for no reason: it compares and swaps at one
  -- moment of the run, whatever the other threads do and however often the weak call in it fails for
  -- no reason. What is expected and desired are values.
  pub compare_exchange_strong_linear :
      (attempts : List B.Attempt) (c₀ c : B.Cell) (desired : ℕ)
      → desired < B.limit
      → Returns
          (Compared (B.value c₀) desired attempts c)
          (compare_exchange_strong B attempts (B.value c₀) desired c)
  compare_exchange_strong_linear [] c₀ c desired small = compare-last c₀ c desired small
  compare_exchange_strong_linear (a ∷ more) c₀ c desired small =
      let (out, run, after) = compare_exchange_strong_linear more c₀ (B.others a c) desired small in
      elim (B.fails_or_swaps a c₀ c desired small) [
        | inl failed ↦ elim (Bool-cases (B.value c₀ == B.value (B.others a c))) [
          | inl same ↦ (
            out,
            compare-retried a more (B.value c₀) desired c failed same ∙ run,
            (suc after.0, omega (arith, after.1), after.2, after.3, after.4),
          )
          | inr other ↦ (
            (false, B.value (B.others a c), B.others a c),
            compare-other a more (B.value c₀) desired c failed other,
            (1, omega arith, sym other, refl, refl),
          )
        ]
        | inr (found, c', e, new) ↦ (
          (true, B.value c₀, c'),
          compare-swapped a more (B.value c₀) desired c c' e,
          (1, omega arith, ground arith, found, new),
        )
      ]

  add-neg : (c o : ℕ) → c < B.limit → add B o (neg B c) ≡ (o + (B.limit - c)) % B.limit
  add-neg c o small = rw (mod-eq_of_lt small) (add-mod-mod o (B.limit - c) B.limit)

  pub integral-lt : (n : ℕ) → integral B n < B.limit
  integral-lt n = mod-lt n B.some_limit

  -- `fetch_sub` of a value subtracts modulo the number of values, at one moment of the run.
  pub fetch_sub_linear :
      (attempts : List B.Attempt) (c : ℕ) (v : B.Cell)
      → c < B.limit
      → Returns
          (Modified (λ o. (o + (B.limit - c)) % B.limit) attempts v)
          (fetch_sub B attempts c v)
  unfolding fetch_sub fetch_add
  fetch_sub_linear attempts c v small =
      let (out, run, after) =
        modify_linear (λ o. add B o (neg B c)) (λ o. integral-lt (o + neg B c)) attempts v in
      (out, run, subst (λ f. Modified f attempts v out) (fun_ext (λ o. add-neg c o small)) after)

  -- What an operator that assigns returns: the value that it leaves.
  abbrev pub ReturnsNew : Run (ℕ × B.Cell) → Type 0
  ReturnsNew r = Returns (λ (x, v'). x ≡ B.value v') r

  -- The moment of a modification: after some number of the attempts.
  pub Modified-seen :
      (f : ℕ → ℕ) (attempts : List B.Attempt) (c : B.Cell) (out : ℕ × B.Cell)
      → Modified f attempts c out
      → (k : ℕ) × (k ≤ length attempts)
        × (out.0 ≡ B.value (seen k attempts c))
        × (B.value out.1 ≡ f out.0)
  Modified-seen f [] c out (found, e, new) =
      (0, omega arith, found ∙ ap B.value (B.others-calm c), new)
  Modified-seen f (a ∷ more) c out (inl (found, e, new)) = (1, omega arith, found, new)
  Modified-seen f (a ∷ more) c out (inr m) =
      let (k, le, found, new) = Modified-seen f more (B.others a c) out m in
      (suc k, omega (arith, le), found, new)

  new_value :
      (g : ℕ → ℕ) (attempts : List B.Attempt) (v : B.Cell)
      → ReturnsNew
          (modify B (λ o. integral B (g o)) attempts v >>= λ (o, v'). ok (integral B (g o), v'))
  new_value g attempts v =
      let (out, run, after) =
        modify_linear (λ o. integral B (g o)) (λ o. integral-lt (g o)) attempts v in
      (
        (integral B (g out.0), out.1),
        rw run,
        sym (Modified-seen (λ o. integral B (g o)) attempts v out after).3,
      )

  -- The operators `&=`, `|=`, `^=`, `+=`, `-=` and the prefix `++` and `--` return the value that they
  -- have put in, whatever the other threads do.
  pub assign-ReturnsNew :
      (attempts : List B.Attempt) (c : ℕ) (v : B.Cell)
      → ReturnsNew (and_assign B attempts c v)
        × ReturnsNew (or_assign B attempts c v)
        × ReturnsNew (xor_assign B attempts c v)
        × ReturnsNew (add_assign B attempts c v)
        × ReturnsNew (sub_assign B attempts c v)
        × ReturnsNew (pre_increment B attempts v)
        × ReturnsNew (pre_decrement B attempts v)
  unfolding and_assign or_assign xor_assign add_assign sub_assign pre_increment pre_decrement
      fetch_and fetch_or fetch_xor fetch_add fetch_sub
  assign-ReturnsNew attempts c v = (
    new_value (λ o. bit_and o c) attempts v,
    new_value (λ o. bit_or o c) attempts v,
    new_value (λ o. bit_xor o c) attempts v,
    new_value (λ o. o + c) attempts v,
    new_value (λ o. o + neg B c) attempts v,
    new_value (λ o. o + 1) attempts v,
    new_value (λ o. o + neg B 1) attempts v,
  )
