-- ===== src/Atomic/Arm.antt =====
-- boost/atomic/detail/gcc-armv6+.hpp: `atomic_arm_4`. `strex` leaves 0 when it has stored and 1 when
-- not; the conditional store is a parameter, and the fences are in Fences/Arm.
use boost_lockfree.Prelude.{
  ℕ, ◌+◌, ◌-◌, ◌%◌, ◌^◌, ◌≡◌, refl, Bool, false, ◌==◌, if◌then◌else◌, Bool-cases, inl, inr, List,
  Run, Returns,
}
use boost_lockfree.Atomic.Weak.{Attempt, word}
use boost_lockfree.Atomic.Linear.{Modified}
use boost_lockfree.Atomic.LoadLocked.{Conditional, locked_loop, locked_loop-Modified}
use boost_lockfree.Atomic.Alpha

module _ (cpu : Conditional) where
  abbrev pub strex : Bool → ℕ → ℕ → ℕ × ℕ
  strex lost v i = let (stored, i') = cpu.store lost v i in ((if stored == 0 then 1 else 0), i')

  -- The instructions behind `teq` are carried out on equal values only.
  unfoldable pub compare_exchange_weak : Attempt → ℕ → ℕ → ℕ → Bool × ℕ × ℕ
  compare_exchange_weak a expected desired i =
      let current = a.others i in
      let (tmp, i') = strex a.spurious desired current in
      if current == expected then (tmp == 0, current, i') else (false, current, current)

  unfoldable pub fetch_add_var : List Attempt → ℕ → ℕ → Run (ℕ × ℕ)
  fetch_add_var attempts c i = locked_loop cpu (λ original. (original + c) % 2 ^ 32) attempts i

  unfoldable pub fetch_inc : List Attempt → ℕ → Run (ℕ × ℕ)
  fetch_inc attempts i = locked_loop cpu (λ original. (original + 1) % 2 ^ 32) attempts i

  unfoldable pub fetch_dec : List Attempt → ℕ → Run (ℕ × ℕ)
  fetch_dec attempts i = locked_loop cpu (λ original. (original + (2 ^ 32 - 1)) % 2 ^ 32) attempts i

  -- The loops end, each as one successful compare and swap of the run, whatever the others do, however
  -- often the conditional stores fail for no reason.
  pub arm_linear :
      (attempts : List Attempt) (n i : ℕ)
      → Returns (Modified (word 32) (λ o. (o + n) % 2 ^ 32) attempts i) (fetch_add_var attempts n i)
        × Returns (Modified (word 32) (λ o. (o + 1) % 2 ^ 32) attempts i) (fetch_inc attempts i)
        × Returns
            (Modified (word 32) (λ o. (o + (2 ^ 32 - 1)) % 2 ^ 32) attempts i)
            (fetch_dec attempts i)
  unfolding fetch_add_var fetch_inc fetch_dec
  arm_linear attempts n i = (
    locked_loop-Modified cpu (λ o. (o + n) % 2 ^ 32) 32 attempts i,
    locked_loop-Modified cpu (λ o. (o + 1) % 2 ^ 32) 32 attempts i,
    locked_loop-Modified cpu (λ o. (o + (2 ^ 32 - 1)) % 2 ^ 32) 32 attempts i,
  )

  -- The class compares and swaps as that of the Alpha does.
  pub arm-alpha :
      (a : Attempt) (e d i : ℕ)
      → compare_exchange_weak a e d i ≡ Alpha.compare_exchange_weak 32 cpu a e d i
  unfolding compare_exchange_weak Alpha.compare_exchange_weak
  arm-alpha a e d i = elim (Bool-cases (a.others i == e)) [
    | inl found ↦ elim (Bool-cases ((cpu.store a.spurious d (a.others i)).0 == 0)) [
      | inl failed ↦ rw (found, failed) refl
      | inr stored ↦ rw (found, stored) refl
    ]
    | inr other ↦ rw other refl
  ]
