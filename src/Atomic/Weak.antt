-- ===== src/Atomic/Weak.antt =====
-- A word of `w` bits whose compare and swap may fail for no reason, as that of the machines that
-- pair a load with a conditional store.
use boost_lockfree.Prelude.{
  ℕ, ◌^◌, ◌≡◌, refl, ◌∙◌, arith, Bool, true, false, ◌==◌, ==_iff, if◌then◌else◌, Bool-cases, inl,
  inr,
}
use native.Mathlib.Nat.{one-le-pow}
use boost_lockfree.Atomic.{Base}

-- What the other threads make of the value before a call, and whether it fails for no reason.
pub record Attempt : Type 0 where
  pub others : ℕ → ℕ
  pub spurious : Bool

unfoldable pub compare_exchange_weak : Attempt → ℕ → ℕ → ℕ → Bool × ℕ × ℕ
compare_exchange_weak a expected desired v =
    if a.spurious
    then (false, a.others v, a.others v)
    else if expected == a.others v
    then (true, expected, desired)
    else (false, a.others v, a.others v)

same_value : (v : ℕ) → (v == v) ≡ true
same_value v = ground arith

module _ (a : Attempt) (e d v : ℕ) where
  pub call-fails :
      a.spurious ≡ true → compare_exchange_weak a e d v ≡ (false, a.others v, a.others v)
  unfolding compare_exchange_weak
  call-fails fails = rw fails refl

  pub call-swaps :
      a.spurious ≡ false → (e == a.others v) ≡ true → compare_exchange_weak a e d v ≡ (true, e, d)
  unfolding compare_exchange_weak
  call-swaps works found = rw (works, found) refl

  pub call-other :
      a.spurious ≡ false
      → (e == a.others v) ≡ false
      → compare_exchange_weak a e d v ≡ (false, a.others v, a.others v)
  unfolding compare_exchange_weak
  call-other works changed = rw (works, changed) refl

abbrev pub word : ℕ → Base
word w = record {
  Cell = ℕ;
  value = λ v. v;
  limit = 2 ^ w;
  Attempt = Attempt;
  others = λ a. a.others;
  calm = record { others = λ v. v; spurious = false };
  compare_exchange_weak = compare_exchange_weak;
  some_limit = one-le-pow w 2 (omega arith);
  others-calm = λ c. refl;
  fails_or_swaps = λ a e v d h. elim (Bool-cases a.spurious) [
    | inl fails ↦ inl (call-fails a e d v fails)
    | inr works ↦ elim (Bool-cases (e == a.others v)) [
      | inl found ↦ inr ((==_iff e (a.others v)).0 found, d, call-swaps a e d v works found, refl)
      | inr changed ↦ inl (call-other a e d v works changed)
    ]
  ];
  calm_swaps = λ e v d h same. (
    d,
    call-swaps (record { others = λ v. v; spurious = false }) e d v refl ((==_iff e v).1 same),
    refl,
  );
}

-- A compare and swap on a number that never fails for no reason.
abbrev pub IsStrong : (ℕ → ℕ → ℕ → Bool × ℕ × ℕ) → Type 0
IsStrong cas =
    (expected desired i : ℕ)
    → cas expected desired i ≡ (if expected == i then (true, expected, desired) else (false, i, i))

-- It makes a `Base` of `w` bits; an attempt is what the other threads do before the call.
module _ (w : ℕ) (cas : ℕ → ℕ → ℕ → Bool × ℕ × ℕ) (strong : IsStrong cas) where
  pub strong-swaps : (e d i : ℕ) → e ≡ i → cas e d i ≡ (true, e, d)
  strong-swaps e d i same = let test : (e == i) ≡ true = ground arith in strong e d i ∙ rw test refl

  pub strong-fails : (e d i : ℕ) → (e == i) ≡ false → cas e d i ≡ (false, i, i)
  strong-fails e d i test = strong e d i ∙ rw test refl

  abbrev pub strong_word : Base
  strong_word = record {
    Cell = ℕ;
    value = λ v. v;
    limit = 2 ^ w;
    Attempt = ℕ → ℕ;
    others = λ a. a;
    calm = λ v. v;
    compare_exchange_weak = λ a e d v. cas e d (a v);
    some_limit = one-le-pow w 2 (omega arith);
    others-calm = λ c. refl;
    fails_or_swaps = λ a e v d h. elim (Bool-cases (e == a v)) [
      | inl found ↦
          inr ((==_iff e (a v)).0 found, d, strong-swaps e d (a v) ((==_iff e (a v)).0 found), refl)
      | inr changed ↦ inl (strong-fails e d (a v) changed)
    ];
    calm_swaps = λ e v d h same. (d, strong-swaps e d v same, refl);
  }
