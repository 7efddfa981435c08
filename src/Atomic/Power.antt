-- ===== src/Atomic/Power.antt =====
-- boost/atomic/detail/gcc-ppc.hpp: `atomic_ppc_32`, and the loops of `atomic_ppc_64`, of which the
-- compare and swap does not compile. The conditional store is a parameter, and a word is a number; the
-- fences are in Fences/Power.
use boost_lockfree.Prelude.{
  ℕ, ◌+◌, ◌-◌, ◌%◌, ◌^◌, ◌≡◌, refl, Bool, true, false, not, ◌==◌, if◌then◌else◌, Bool-cases, inl,
  inr, List, Run, Returns,
}
use boost_lockfree.Atomic.Weak.{Attempt, word}
use boost_lockfree.Atomic.Linear.{Modified}
use boost_lockfree.Atomic.LoadLocked.{Conditional, locked_loop, locked_loop-Modified}
use boost_lockfree.Atomic.Alpha

module _ (cpu : Conditional) where
  -- `atomic_ppc_32`: `bne-` leaves when the values differ, and when `stwcx.` has failed.
  unfoldable pub compare_exchange_weak_32 : Attempt → ℕ → ℕ → ℕ → Bool × ℕ × ℕ
  compare_exchange_weak_32 a expected desired i =
      let current = a.others i in
      let (stored, i') = cpu.store a.spurious desired current in
      if not (current == expected)
      then (false, current, current)
      else if stored == 0
      then (false, current, i')
      else (true, current, i')

  module _ (w : ℕ) where
    -- the loops of `atomic_ppc_32`
    unfoldable pub fetch_add_var : List Attempt → ℕ → ℕ → Run (ℕ × ℕ)
    fetch_add_var attempts c i = locked_loop cpu (λ original. (original + c) % 2 ^ w) attempts i

    unfoldable pub fetch_inc : List Attempt → ℕ → Run (ℕ × ℕ)
    fetch_inc attempts i = locked_loop cpu (λ original. (original + 1) % 2 ^ w) attempts i

    unfoldable pub fetch_dec : List Attempt → ℕ → Run (ℕ × ℕ)
    fetch_dec attempts i = locked_loop cpu (λ original. (original + (2 ^ w - 1)) % 2 ^ w) attempts i

    -- The loops end, each as one successful compare and swap of the run, whatever the others do, however
    -- often the conditional stores fail for no reason.
    pub power_linear :
        (attempts : List Attempt) (n i : ℕ)
        → Returns (Modified (word w) (λ o. (o + n) % 2 ^ w) attempts i) (fetch_add_var attempts n i)
          × Returns (Modified (word w) (λ o. (o + 1) % 2 ^ w) attempts i) (fetch_inc attempts i)
          × Returns
              (Modified (word w) (λ o. (o + (2 ^ w - 1)) % 2 ^ w) attempts i)
              (fetch_dec attempts i)
    unfolding fetch_add_var fetch_inc fetch_dec
    power_linear attempts n i = (
      locked_loop-Modified cpu (λ o. (o + n) % 2 ^ w) w attempts i,
      locked_loop-Modified cpu (λ o. (o + 1) % 2 ^ w) w attempts i,
      locked_loop-Modified cpu (λ o. (o + (2 ^ w - 1)) % 2 ^ w) w attempts i,
    )

  -- The class of 32 bits compares and swaps as that of the Alpha does.
  pub power_32-alpha :
      (a : Attempt) (e d i : ℕ)
      → compare_exchange_weak_32 a e d i ≡ Alpha.compare_exchange_weak 32 cpu a e d i
  unfolding compare_exchange_weak_32 Alpha.compare_exchange_weak
  power_32-alpha a e d i = elim (Bool-cases (a.others i == e)) [
    | inl found ↦ elim (Bool-cases ((cpu.store a.spurious d (a.others i)).0 == 0)) [
      | inl failed ↦ rw (found, failed) refl
      | inr stored ↦ rw (found, stored) refl
    ]
    | inr other ↦ rw other refl
  ]

-- The loops of `atomic_ppc_64`, with `ldarx` and `stdcx.`.
module _ (cpu : Conditional) (attempts : List Attempt) where
  abbrev pub fetch_add_var_64 : ℕ → ℕ → Run (ℕ × ℕ)
  fetch_add_var_64 c i = fetch_add_var cpu 64 attempts c i

  abbrev pub fetch_inc_64 : ℕ → Run (ℕ × ℕ)
  fetch_inc_64 i = fetch_inc cpu 64 attempts i

  abbrev pub fetch_dec_64 : ℕ → Run (ℕ × ℕ)
  fetch_dec_64 i = fetch_dec cpu 64 attempts i
