-- ===== src/Atomic/Alpha.antt =====
-- boost/atomic/detail/gcc-alpha.hpp: `atomic_alpha_32` and `atomic_alpha_64`, whose texts differ in the
-- size of the instructions only. The conditional store is a parameter; the fences are in Fences/Alpha.
use native.Mathlib.Nat.{one-le-pow}
use boost_lockfree.Prelude.{
  ℕ, ◌+◌, ◌-◌, ◌%◌, ◌^◌, ◌≡◌, refl, sym, arith, Bool, true, false, not, ◌==◌, ==_iff, if◌then◌else◌,
  Bool-cases, inl, inr, List, Run, Returns,
}
use boost_lockfree.Atomic.{Base, exchange}
use boost_lockfree.Atomic.Weak.{Attempt, word}
use boost_lockfree.Atomic.Linear.{Modified, modify_linear, integral-lt}
use boost_lockfree.Atomic.LoadLocked.{Conditional, calm, locked_loop, locked_loop-Modified}

module _ (w : ℕ) (cpu : Conditional) where
  -- `cmpeq` leaves 1 or 0 in `success`; when the values differ, `desired` becomes 0 without a store,
  -- and else what the conditional store leaves. `expected` becomes what was loaded.
  unfoldable pub compare_exchange_weak : Attempt → ℕ → ℕ → ℕ → Bool × ℕ × ℕ
  compare_exchange_weak a expected desired i =
      let current = a.others i in
      let success = if current == expected then 1 else 0 in
      let (stored, i') = cpu.store a.spurious desired current in
      if success == 0 then (false, current, current) else (not (stored == 0), current, i')

  -- `addl` and `subl`
  unfoldable pub fetch_add_var : List Attempt → ℕ → ℕ → Run (ℕ × ℕ)
  fetch_add_var attempts c i = locked_loop cpu (λ original. (original + c) % 2 ^ w) attempts i

  unfoldable pub fetch_inc : List Attempt → ℕ → Run (ℕ × ℕ)
  fetch_inc attempts i = locked_loop cpu (λ original. (original + 1) % 2 ^ w) attempts i

  unfoldable pub fetch_dec : List Attempt → ℕ → Run (ℕ × ℕ)
  fetch_dec attempts i = locked_loop cpu (λ original. (original + (2 ^ w - 1)) % 2 ^ w) attempts i

  module _ (a : Attempt) (e d i : ℕ) where
    same_value : (v : ℕ) → (v == v) ≡ true
    same_value v = ground arith

    pub call-lost :
        a.spurious ≡ true → compare_exchange_weak a e d i ≡ (false, a.others i, a.others i)
    unfolding compare_exchange_weak
    call-lost lost = elim (Bool-cases (a.others i == e)) [
      | inl test ↦ rw (lost, cpu.lost_law d (a.others i), test) refl
      | inr test ↦ rw (lost, cpu.lost_law d (a.others i), test) refl
    ]

    pub call-other :
        (a.others i == e) ≡ false → compare_exchange_weak a e d i ≡ (false, a.others i, a.others i)
    unfolding compare_exchange_weak
    call-other test = rw test refl

    pub call-swaps :
        a.spurious ≡ false → e ≡ a.others i → compare_exchange_weak a e d i ≡ (true, e, d)
    unfolding compare_exchange_weak
    call-swaps kept found =
        rw (kept, cpu.kept_law d (a.others i), found, same_value (a.others i)) refl

  -- The class as what the builders extend.
  abbrev pub atomic_alpha : Base
  atomic_alpha = record {
    Cell = ℕ;
    value = λ v. v;
    limit = 2 ^ w;
    Attempt = Attempt;
    others = λ a. a.others;
    calm = calm;
    compare_exchange_weak = compare_exchange_weak;
    some_limit = one-le-pow w 2 (omega arith);
    others-calm = λ c. refl;
    fails_or_swaps = λ a e v d h. elim (Bool-cases a.spurious) [
      | inl lost ↦ inl (call-lost a e d v lost)
      | inr kept ↦ elim (Bool-cases (a.others v == e)) [
        | inl found ↦
            let same : e ≡ a.others v = sym ((==_iff (a.others v) e).0 found) in
            inr (same, d, call-swaps a e d v kept same, refl)
        | inr other ↦ inl (call-other a e d v other)
      ]
    ];
    calm_swaps = λ e v d h same. (d, call-swaps calm e d v refl same, refl);
  }

  -- The loops of the class and of the builder over it end, and the outcome of each is that of a single
  -- successful compare and swap of the run: what it returns is the value that was then in the word, and
  -- it leaves in its place that value with `n`, 1 or -1 added, or `n`, whatever the other threads do
  -- before each load and however often the conditional stores fail for no reason.
  pub alpha_linear :
      (attempts : List Attempt) (n i : ℕ)
      → Returns (Modified (word w) (λ o. (o + n) % 2 ^ w) attempts i) (fetch_add_var attempts n i)
        × Returns (Modified (word w) (λ o. (o + 1) % 2 ^ w) attempts i) (fetch_inc attempts i)
        × Returns
            (Modified (word w) (λ o. (o + (2 ^ w - 1)) % 2 ^ w) attempts i)
            (fetch_dec attempts i)
        × Returns
            (Modified atomic_alpha (λ o. n % 2 ^ w) attempts i)
            (exchange atomic_alpha attempts n i)
  unfolding fetch_add_var fetch_inc fetch_dec exchange
  alpha_linear attempts n i = (
    locked_loop-Modified cpu (λ o. (o + n) % 2 ^ w) w attempts i,
    locked_loop-Modified cpu (λ o. (o + 1) % 2 ^ w) w attempts i,
    locked_loop-Modified cpu (λ o. (o + (2 ^ w - 1)) % 2 ^ w) w attempts i,
    modify_linear atomic_alpha (λ o. n % 2 ^ w) (λ o. integral-lt atomic_alpha n) attempts i,
  )

-- The class of each size.
abbrev pub atomic_alpha_32 : Conditional → Base
atomic_alpha_32 cpu = atomic_alpha 32 cpu

abbrev pub atomic_alpha_64 : Conditional → Base
atomic_alpha_64 cpu = atomic_alpha 64 cpu

-- The loops of `atomic_alpha_64`, with `ldq_l`, `addq`, `subq` and `stq_c`.
module _ (cpu : Conditional) (attempts : List Attempt) where
  abbrev pub fetch_add_var_64 : ℕ → ℕ → Run (ℕ × ℕ)
  fetch_add_var_64 c i = fetch_add_var 64 cpu attempts c i

  abbrev pub fetch_inc_64 : ℕ → Run (ℕ × ℕ)
  fetch_inc_64 i = fetch_inc 64 cpu attempts i

  abbrev pub fetch_dec_64 : ℕ → Run (ℕ × ℕ)
  fetch_dec_64 i = fetch_dec 64 cpu attempts i
