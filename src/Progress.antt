-- ===== src/Progress.antt =====
-- What a thread that runs alone cannot avoid: the theorems on the threads of the containers share it.
use boost_lockfree.Prelude.{ℕ, zero, suc, ◌≡◌, ◌⊎◌, sym, subst, ◌∙◌, inl, inr}

module _ {S Q : Type 0} (Next : S → Q → S → Q → Type 0) where
  -- After at most so many steps of `Next`, whichever they are, the state and the place of the thread
  -- have come to `post`; until then there is always one that it can take.
  abbrev pub Inevitable : (S → Q → Type 0) → ℕ → S → Q → Type 0
  Inevitable post zero s p = post s p
  Inevitable post (suc k) s p =
      post s p
      ⊎ (((t : S) × (q : Q) × Next s p t q)
          × ((t : S) (q : Q) → Next s p t q → Inevitable post k t q))

  module _ (post : S → Q → Type 0) where
    pub now : (k : ℕ) (s : S) (p : Q) → post s p → Inevitable post k s p
    now zero s p h = h
    now (suc k) s p h = inl h

    -- A thread that has one next step at most cannot avoid the one that it has.
    pub must :
        (next : S × Q) (k : ℕ) (s t : S) (p q : Q)
        → ((t' : S) (q' : Q) → Next s p t' q' → next ≡ (t', q'))
        → Next s p t q
        → Inevitable post k t q
        → Inevitable post (suc k) s p
    must next k s t p q only step after = inr (
      (t, q, step),
      λ t' q' step'.
          subst (λ x. Inevitable post k x.0 x.1) (sym (only t q step) ∙ only t' q' step') after,
    )
