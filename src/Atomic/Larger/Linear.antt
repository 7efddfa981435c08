-- ===== src/Atomic/Larger/Linear.antt =====
-- The operations of `build_base_from_larger_type` while other threads change the word.
use native.Mathlib.Nat.{mod-lt}
use boost_lockfree.Prelude.{
  ℕ, ◌%◌, ◌^◌, ◌≤◌, ◌<◌, ◌≡◌, ◌≢◌, ◌⊎◌, refl, sym, ap, subst, ◌∙◌, arith, Bool, true, false, ◌==◌,
  ==_iff, Bool-cases, inl, inr, List, Returns, length,
}
use boost_lockfree.Atomic.Weak.{Attempt, word, call-fails, call-swaps, call-other}
use boost_lockfree.Atomic.Linear.{seen, modify_linear, Modified-seen, Modified-seen}
use boost_lockfree.Atomic.Bits.{some_power}
use boost_lockfree.Atomic.Larger.{width, extract, insert, compare_exchange_weak, store}
use boost_lockfree.Atomic.Larger.Laws.{IsField, insert-IsField}

module _ (k m s : ℕ) where
  -- The outcome of a compare and swap that finds the word `o`, having read `t`.
  abbrev pub Swapped : Attempt → ℕ → ℕ → ℕ → Bool × ℕ × ℕ → Type 0
  Swapped a e d t r =
      ((r ≡ (false, extract k m s (a.others t), a.others t))
        × ((a.spurious ≡ true) ⊎ (a.others t ≢ t) ⊎ (extract k m s t ≢ e)))
      ⊎ ((extract k m s (a.others t) ≡ e)
          × (t' : ℕ) × (r ≡ (true, e, t'))
          × IsField k m s (a.others t) d t')

  module _ (a : Attempt) (e d t : ℕ) (fits : t < 2 ^ width k m s)
      (others_fit : a.others t < 2 ^ width k m s) (e_fits : e < 2 ^ m) (d_fits : d < 2 ^ m) where
    abbrev o : ℕ
    o = a.others t

    expected : IsField k m s t e (insert k m s t e)
    expected = (insert-IsField k m s t fits e e_fits).0

    swap-fails :
        a.spurious ≡ true → compare_exchange_weak k m s a e d t ≡ (false, extract k m s o, o)
    unfolding compare_exchange_weak
    swap-fails spurious =
        rw (call-fails a (insert k m s t e) (insert k m s (insert k m s t e) d) t spurious) refl

    swap-other :
        a.spurious ≡ false
        → (insert k m s t e == o) ≡ false
        → compare_exchange_weak k m s a e d t ≡ (false, extract k m s o, o)
    unfolding compare_exchange_weak
    swap-other works other =
        rw (call-other a (insert k m s t e) (insert k m s (insert k m s t e) d) t works other) refl

    swap-swaps :
        a.spurious ≡ false
        → (insert k m s t e == o) ≡ true
        → compare_exchange_weak k m s a e d t
          ≡ (true, extract k m s (insert k m s t e), insert k m s (insert k m s t e) d)
    unfolding compare_exchange_weak
    swap-swaps works same =
        rw (call-swaps a (insert k m s t e) (insert k m s (insert k m s t e) d) t works same) refl

    -- A word that is not the expected one has changed, or holds another integer.
    changed : (insert k m s t e == o) ≡ false → (o ≢ t) ⊎ (extract k m s t ≢ e)
    changed other = elim (Bool-cases (o == t)) [
      | inl same ↦ inr (λ here.
          let unchanged : insert k m s t e ≡ t =
            ap (insert k m s t) (sym here) ∙ (insert-IsField k m s t fits e e_fits).1 in
          ground (arith, unchanged))
      | inr moved ↦ inl (λ same. ground arith)
    ]

    -- The compare and swap on the integer inside the word fails and reports what it holds then; or it
    -- finds the integer expected and puts in the one desired, and no other bit of the word changes.
    -- It fails only for no reason, because the word has changed since it was read, or because it held
    -- another integer. The words and the integers have their sizes.
    pub larger_swaps : Swapped a e d t (compare_exchange_weak k m s a e d t)
    larger_swaps = elim (Bool-cases a.spurious) [
      | inl spurious ↦ inl (swap-fails spurious, inl spurious)
      | inr works ↦ elim (Bool-cases (insert k m s t e == o)) [
        | inl found ↦
            let same : insert k m s t e ≡ o = (==_iff (insert k m s t e) o).0 found in
            let here : extract k m s o ≡ e = ap (extract k m s) (sym same) ∙ expected.field in
            inr (
              here,
              insert k m s o d,
              swap-swaps works found ∙ rw (same, here) refl,
              (insert-IsField k m s o others_fit d d_fits).0,
            )
        | inr other ↦ inl (swap-other works other, inr (changed other))
      ]
    ]

  -- `store` returns, and at one moment of the run it put the integer into the word that was then
  -- there and changed no other bit of it, whatever the other threads do and however often the calls
  -- of `compare_exchange_weak` fail for no reason. The integer has its size.
  pub larger_store_linear :
      (attempts : List Attempt) (v i : ℕ)
      → v < 2 ^ m
      → Returns
          (λ i'.
            (j : ℕ) × (j ≤ length attempts)
            × IsField k m s (seen (word (width k m s)) j attempts i % 2 ^ width k m s) v i')
          (store k m s attempts v i)
  unfolding store
  larger_store_linear attempts v i small =
      let fits : (t : ℕ) → t % 2 ^ width k m s < 2 ^ width k m s =
        λ t. mod-lt t (some_power (width k m s)) in
      let put : ℕ → ℕ = λ t. insert k m s (t % 2 ^ width k m s) v in
      let right = λ (t : ℕ). (insert-IsField k m s (t % 2 ^ width k m s) (fits t) v small).0 in
      let (out, run, swapped) =
        modify_linear (word (width k m s)) put (λ t. (right t).within) attempts i in
      let after = Modified-seen (word (width k m s)) put attempts i out swapped in
      (
        out.1,
        rw run refl,
        (
          after.0,
          after.1,
          subst (λ x. IsField k m s (x % 2 ^ width k m s) v out.1) after.2
              (subst (IsField k m s (out.0 % 2 ^ width k m s) v) (sym after.3) (right out.0)),
        ),
      )
