-- ===== src/Atomic/LinuxArm.antt =====
-- boost/atomic/detail/linux-arm.hpp: `atomic_linux_arm_4`, whose compare and swap is a function of the
-- kernel, a parameter, which says whether it has changed the word but not what it has found.
use boost_lockfree.Prelude.{
  ℕ, zero, suc, ◌≤◌, ◌≡◌, ◌≢◌, refl, sym, arith, Bool, true, false, ◌==◌, ==_iff, if◌then◌else◌,
  Bool-cases, inl, inr, List, [], ◌∷◌, length, Run, ok, out_of_fuel, Returns,
}

-- `kernel_cmpxchg(oldval, newval, ptr)` on the word at `ptr`: 0 when it has put `newval` there.
pub record Kernel : Type 0 where
  pub cmpxchg : ℕ → ℕ → ℕ → ℕ × ℕ
  pub found_law : (oldval newval i : ℕ) → i ≡ oldval → cmpxchg oldval newval i ≡ (0, newval)
  pub other_law :
      (oldval newval i : ℕ)
      → i ≢ oldval
      → ((cmpxchg oldval newval i).0 ≢ 0) × ((cmpxchg oldval newval i).1 ≡ i)

-- What the other threads make of the word before the call of the kernel, and between it and the load
-- that follows a failure.
pub record Attempt : Type 0 where
  pub before : ℕ → ℕ
  pub between : ℕ → ℕ

abbrev pub calm : Attempt
calm = record { before = λ i. i; between = λ i. i }

module _ (kernel : Kernel) where
  -- Whether it succeeded, what `expected` then holds, and the word.
  unfoldable pub compare_exchange_strong : Attempt → ℕ → ℕ → ℕ → Bool × ℕ × ℕ
  compare_exchange_strong a expected desired i =
      let (result, i') = kernel.cmpxchg expected desired (a.before i) in
      if result == 0 then (true, expected, i') else (false, a.between i', a.between i')

  unfoldable pub compare_exchange_weak : Attempt → ℕ → ℕ → ℕ → Bool × ℕ × ℕ
  unfolding compare_exchange_strong
  compare_exchange_weak a expected desired i = compare_exchange_strong a expected desired i

  unfoldable pub exchange_round : (ℕ → ℕ → Run (ℕ × ℕ)) → ℕ → Attempt → ℕ → ℕ → Run (ℕ × ℕ)
  exchange_round again replacement a o i =
      let (done, o', i') = compare_exchange_weak a o replacement i in
      let rest = again o' i' in if done then ok (o', i') else rest

  unfoldable pub exchange_loop : ℕ → List Attempt → ℕ → ℕ → Run (ℕ × ℕ)
  unfolding exchange_round
  exchange_loop replacement [] o i = exchange_round (λ _ _. out_of_fuel) replacement calm o i
  exchange_loop replacement (a ∷ more) o i =
      exchange_round (exchange_loop replacement more) replacement a o i

  -- The first read is `load(memory_order_relaxed)`.
  unfoldable pub exchange : List Attempt → ℕ → ℕ → Run (ℕ × ℕ)
  unfolding exchange_loop
  exchange attempts replacement i = exchange_loop replacement attempts i i

  module _ (a : Attempt) (e d i : ℕ) where
    call-found : a.before i ≡ e → compare_exchange_strong a e d i ≡ (true, e, d)
    unfolding compare_exchange_strong
    call-found found = rw (kernel.found_law e d (a.before i) found) refl

    call-other :
        a.before i ≢ e
        → compare_exchange_strong a e d i ≡ (false, a.between (a.before i), a.between (a.before i))
    unfolding compare_exchange_strong
    call-other other =
        let (failed, same) = kernel.other_law e d (a.before i) other in
        let test : ((kernel.cmpxchg e d (a.before i)).0 == 0) ≡ false = ground arith in
        rw (test, same) refl

  -- The word at the call of the kernel in round `k` of a loop.
  abbrev pub word_at : ℕ → List Attempt → ℕ → ℕ
  word_at k [] i = i
  word_at zero (a ∷ more) i = a.before i
  word_at (suc k) (a ∷ more) i = word_at k more (a.between (a.before i))

  abbrev pub Exchanged : ℕ → List Attempt → ℕ → ℕ × ℕ → Type 0
  Exchanged replacement attempts i (o, i') =
      (k : ℕ) × (k ≤ length attempts) × (o ≡ word_at k attempts i) × (i' ≡ replacement)

  module _ (replacement : ℕ) where
    loop-Exchanged :
        (attempts : List Attempt) (i : ℕ)
        → Returns (Exchanged replacement attempts i) (exchange_loop replacement attempts i i)
    unfolding exchange_loop exchange_round compare_exchange_weak
    loop-Exchanged [] i = (
      (i, replacement),
      rw (call-found calm i replacement i refl) refl,
      (0, omega arith, refl, refl),
    )
    loop-Exchanged (a ∷ more) i = elim (Bool-cases (a.before i == i)) [
      | inl test ↦
          let found : a.before i ≡ i = (==_iff (a.before i) i).0 test in
          (
            (i, replacement),
            rw (call-found a i replacement i found) refl,
            (0, omega arith, sym found, refl),
          )
      | inr test ↦
          let other : a.before i ≢ i = λ e. ground (arith, test) in
          let now = a.between (a.before i) in
          let (out, run, after) = loop-Exchanged more now in
          (
            out,
            rw (call-other a i replacement i other) run,
            (suc after.0, omega (arith, after.1), after.2, after.3),
          )
    ]

    -- `exchange` returns, with the value that the word had at the moment of one call of the kernel, and
    -- leaves the replacement, whatever the other threads do before and after each call.
    pub linux_arm_exchange :
        (attempts : List Attempt) (i : ℕ)
        → Returns (Exchanged replacement attempts i) (exchange attempts replacement i)
    unfolding exchange
    linux_arm_exchange attempts i = loop-Exchanged attempts i

  -- `compare_exchange_strong` swaps just when it finds the expected value. When it does not, it leaves
  -- the word to the others, and reports what these have made of it by the load that follows, which
  -- may be the very value that was expected: then the call has failed and `expected` is as it was.
  pub linux_arm_compare :
      (e d i : ℕ)
      → ((a : Attempt)
          → (let (success, e', i') = compare_exchange_strong a e d i in
              (success ≡ (a.before i == e))
              × (i' ≡ (if a.before i == e then d else a.between (a.before i)))
              × (e' ≡ (if a.before i == e then e else i'))))
        × (i ≢ e → (a : Attempt) × (compare_exchange_strong a e d i ≡ (false, e, e)))
  linux_arm_compare e d i = (
    λ a. elim (Bool-cases (a.before i == e)) [
      | inl test ↦ rw (call-found a e d i ((==_iff (a.before i) e).0 test), test) (refl, refl, refl)
      | inr test ↦ rw (call-other a e d i (λ same. ground (arith, test)), test) (refl, refl, refl)
    ],
    λ other.
        let back : Attempt = record { before = λ v. v; between = λ v. e } in
        (back, call-other back e d i other),
  )
