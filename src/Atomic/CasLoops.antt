-- ===== src/Atomic/CasLoops.antt =====
-- boost/atomic/detail/generic-cas.hpp, and `atomic_x86_64` of gcc-x86.hpp for i686: classes that have
-- a compare and swap only, and loop round it for the rest. The compiler's function, or the
-- instruction, is a parameter, which returns the old value.
use boost_lockfree.Prelude.{
  ℕ, ◌+◌, ◌≡◌, arith, Bool, ◌==◌, if◌then◌else◌, List, Run, ok, ◌>>=◌, Returns,
}
use boost_lockfree.Atomic.{Base, modify, integral, add}
use boost_lockfree.Atomic.Weak.{IsStrong, strong_word}
use boost_lockfree.Atomic.Linear.{Modified, modify_linear, integral-lt}

module _ (w : ℕ) (val_cas : ℕ → ℕ → ℕ → ℕ × ℕ) where
  -- `found=(T)fenced_compare_exchange_strong_32(&i, expected, desired)` and what follows
  unfoldable pub compare_exchange_strong : ℕ → ℕ → ℕ → Bool × ℕ × ℕ
  compare_exchange_strong expected desired i =
      let (found, i') = val_cas expected desired i in
      let success = found == expected in (success, found, i')

  -- `atomic_x86_64` has the same text, with `prev` for `found`.
  unfoldable pub compare_exchange_strong_64 : ℕ → ℕ → ℕ → Bool × ℕ × ℕ
  compare_exchange_strong_64 expected desired i =
      let (prev, i') = val_cas expected desired i in
      let success = prev == expected in (success, prev, i')

  module _ (documented : (e d i : ℕ) → val_cas e d i ≡ (i, (if i == e then d else i))) where
    pub cas-IsStrong : IsStrong compare_exchange_strong
    unfolding compare_exchange_strong
    cas-IsStrong e d i = rw (documented e d i) (ground arith)

    pub cas_64-IsStrong : IsStrong compare_exchange_strong_64
    unfolding compare_exchange_strong_64
    cas_64-IsStrong e d i = rw (documented e d i) (ground arith)

    -- `atomic_generic_cas32`, and `atomic_x86_64` for i686, as a `Base`.
    abbrev pub generic : Base
    generic = strong_word w compare_exchange_strong cas-IsStrong

    abbrev pub i686 : Base
    i686 = strong_word w compare_exchange_strong_64 cas_64-IsStrong

    -- `load` swaps what it finds for itself, since a wide word cannot be read at once.
    unfoldable pub load : List (ℕ → ℕ) → ℕ → Run (ℕ × ℕ)
    load attempts i = modify generic (λ expected. integral generic expected) attempts i

    unfoldable pub exchange : List (ℕ → ℕ) → ℕ → ℕ → Run (ℕ × ℕ)
    exchange attempts r i = modify generic (λ expected. integral generic r) attempts i

    unfoldable pub store : List (ℕ → ℕ) → ℕ → ℕ → Run ℕ
    store attempts v i = exchange attempts v i >>= λ (old, i'). ok i'

    unfoldable pub load_64 : List (ℕ → ℕ) → ℕ → Run (ℕ × ℕ)
    load_64 attempts i = modify i686 (λ expected. integral i686 expected) attempts i

    unfoldable pub exchange_64 : List (ℕ → ℕ) → ℕ → ℕ → Run (ℕ × ℕ)
    exchange_64 attempts r i = modify i686 (λ prev. integral i686 r) attempts i

    unfoldable pub store_64 : List (ℕ → ℕ) → ℕ → ℕ → Run ℕ
    store_64 attempts v i = exchange_64 attempts v i >>= λ (prev, i'). ok i'

    unfoldable pub fetch_add_64 : List (ℕ → ℕ) → ℕ → ℕ → Run (ℕ × ℕ)
    fetch_add_64 attempts c i = modify i686 (λ expected. add i686 expected c) attempts i

    -- The loops of `atomic_generic_cas32` and of `atomic_x86_64` for i686 end, and each takes effect
    -- at one moment: `load` returns the value and leaves it, `exchange` returns it and leaves `n`, and
    -- `fetch_add` returns it and leaves the sum, whatever the other threads do, when the compare and
    -- swap does what it is documented to do.
    pub cas_loops_linear :
        (attempts : List (ℕ → ℕ)) (n i : ℕ)
        → Returns (Modified generic (λ o. integral generic o) attempts i) (load attempts i)
          × Returns (Modified generic (λ o. integral generic n) attempts i) (exchange attempts n i)
          × Returns (Modified i686 (λ o. integral i686 o) attempts i) (load_64 attempts i)
          × Returns (Modified i686 (λ o. integral i686 n) attempts i) (exchange_64 attempts n i)
          × Returns (Modified i686 (λ o. add i686 o n) attempts i) (fetch_add_64 attempts n i)
    unfolding load exchange load_64 exchange_64 fetch_add_64
    cas_loops_linear attempts n i = (
      modify_linear generic (λ o. integral generic o) (λ o. integral-lt generic o) attempts i,
      modify_linear generic (λ o. integral generic n) (λ o. integral-lt generic n) attempts i,
      modify_linear i686 (λ o. integral i686 o) (λ o. integral-lt i686 o) attempts i,
      modify_linear i686 (λ o. integral i686 n) (λ o. integral-lt i686 n) attempts i,
      modify_linear i686 (λ o. add i686 o n) (λ o. integral-lt i686 (o + n)) attempts i,
    )
