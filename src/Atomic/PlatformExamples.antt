-- ===== src/Atomic/PlatformExamples.antt =====
-- The theorems on the classes of the platforms, at a processor and at functions that do what their
-- documentation says.
use boost_lockfree.Prelude.{
  ℕ, ◌+◌, ◌-◌, ◌%◌, ◌^◌, ◌≡◌, refl, true, false, ◌==◌, if◌then◌else◌, List, [], ◌∷◌, Returns,
}
use boost_lockfree.Atomic.{add, integral}
use boost_lockfree.Atomic.Linear.{Modified}
use boost_lockfree.Atomic.Order.{MemoryOrder}
use boost_lockfree.Atomic.Platform.{IsAtomic, IsAddition, IsOrdered}
use boost_lockfree.Atomic.X86.{
  Instructions, Builtins, atomic_x86_8, atomic_x86_128, exchange_128, fetch_add_128,
}
use boost_lockfree.Atomic.X86.Laws.{x86-IsOrdered, x86_128_not-IsAtomic}
use boost_lockfree.Atomic as Builder
use boost_lockfree.Atomic.Weak.{Attempt, word}
use boost_lockfree.Atomic.LoadLocked.{Conditional}
use boost_lockfree.Atomic.Alpha
use boost_lockfree.Atomic.Alpha.{atomic_alpha_32, alpha_linear}

abbrev bytes : Instructions 8
bytes = record {
  cmpxchg = λ accumulator r i. (i, (if i == accumulator then r else i));
  xchg = λ r i. (i, r);
  xadd = λ r i. (i, (i + r) % 2 ^ 8);
  cmpxchg_law = λ accumulator r i. refl;
  xchg_law = λ r i. refl;
  xadd_law = λ r i. refl;
}

abbrev builtins : Builtins
builtins = record {
  val_compare_and_swap = λ expected desired i. (i, (if i == expected then desired else i));
  bool_compare_and_swap =
      λ expected desired i. (i == expected, (if i == expected then desired else i));
  fetch_and_add = λ c i. (i, (i + c) % 2 ^ 128);
  val_law = λ expected desired i. refl;
  bool_law = λ expected desired i. refl;
  add_law = λ c i. refl;
}

x86-IsOrdered_example : IsOrdered (atomic_x86_8 bytes)
x86-IsOrdered_example = x86-IsOrdered bytes

x86_128_not-IsAtomic_example :
    ((r : ℕ) (o : MemoryOrder) (i : ℕ)
      → ((exchange_128 builtins r o i).0 ≡ r) × ((exchange_128 builtins r o i).1 ≡ r))
    × ((c : ℕ) (o : MemoryOrder) (i : ℕ)
        → ((fetch_add_128 builtins c o i).0 ≡ c)
          × ((fetch_add_128 builtins c o i).1 ≡ (i + c) % 2 ^ 128))
    × ¬ (IsAtomic (atomic_x86_128 builtins))
    × ¬ (IsAddition 128 (fetch_add_128 builtins))
x86_128_not-IsAtomic_example = x86_128_not-IsAtomic builtins

abbrev val_cas : ℕ → ℕ → ℕ → ℕ × ℕ
val_cas expected desired i = (i, (if i == expected then desired else i))

abbrev documented : (e d i : ℕ) → val_cas e d i ≡ (i, (if i == e then d else i))
documented e d i = refl

-- another thread adds before the first call
abbrev attempts : List (ℕ → ℕ)
attempts = (λ v. (v + 5) % 2 ^ 32) ∷ []

abbrev conditional : Conditional
conditional = record {
  store = λ lost v i. if lost then (0, i) else (1, v);
  lost_law = λ v i. refl;
  kept_law = λ v i. refl;
}

-- a store that another thread makes fail, and a calm one
abbrev rounds : List Attempt
rounds =
    record { others = λ v. (v + 5) % 2 ^ 32; spurious = true }
    ∷ record { others = λ v. v; spurious = false }
    ∷ []

alpha_linear_example :
    Returns
      (Modified (word 32) (λ o. (o + 9) % 2 ^ 32) rounds 7)
      (Alpha.fetch_add_var 32 conditional rounds 9 7)
    × Returns
        (Modified (word 32) (λ o. (o + 1) % 2 ^ 32) rounds 7)
        (Alpha.fetch_inc 32 conditional rounds 7)
    × Returns
        (Modified (word 32) (λ o. (o + (2 ^ 32 - 1)) % 2 ^ 32) rounds 7)
        (Alpha.fetch_dec 32 conditional rounds 7)
    × Returns
        (Modified (atomic_alpha_32 conditional) (λ o. 9 % 2 ^ 32) rounds 7)
        (Builder.exchange (atomic_alpha_32 conditional) rounds 9 7)
alpha_linear_example = alpha_linear 32 conditional rounds 9 7
