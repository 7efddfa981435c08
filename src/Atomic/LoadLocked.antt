-- ===== src/Atomic/LoadLocked.antt =====
-- The machines that pair a load with a conditional store, which fails when another thread has written
-- in between, or for no reason. The loops of gcc-alpha.hpp round such a pair.
use boost_lockfree.Prelude.{
  ℕ, ◌≡◌, refl, ◌∙◌, arith, Bool, true, false, ◌==◌, if◌then◌else◌, Bool-cases, inl, inr, List, [],
  ◌∷◌, Run, ok, out_of_fuel, Returns,
}
use boost_lockfree.Atomic.Weak.{Attempt, word, call-swaps}
use boost_lockfree.Atomic.Linear.{Swaps, Modified}

-- The conditional store of the value in a register to the word `i`: whether the reservation is lost;
-- then what the register holds, and the word.
pub record Conditional : Type 0 where
  pub store : Bool → ℕ → ℕ → ℕ × ℕ
  pub lost_law : (v i : ℕ) → store true v i ≡ (0, i)
  pub kept_law : (v i : ℕ) → store false v i ≡ (1, v)

abbrev pub calm : Attempt
calm = record { others = λ v. v; spurious = false }

module _ (cpu : Conditional) (f : ℕ → ℕ) where
  -- One round: load, compute, store, and again when the store has failed. The attempt says what the
  -- other threads have made of the word by the load, and whether the reservation is lost; what they
  -- write between the load and the failed store counts for the next round.
  unfoldable pub locked_round : (ℕ → Run (ℕ × ℕ)) → Attempt → ℕ → Run (ℕ × ℕ)
  locked_round again a i =
      let original = a.others i in
      let (stored, i') = cpu.store a.spurious (f original) original in
      let rest = again i' in if stored == 0 then rest else ok (original, i')

  unfoldable pub locked_loop : List Attempt → ℕ → Run (ℕ × ℕ)
  unfolding locked_round
  locked_loop [] i = locked_round (λ _. out_of_fuel) calm i
  locked_loop (a ∷ more) i = locked_round (locked_loop more) a i

  round-lost :
      (again : ℕ → Run (ℕ × ℕ)) (a : Attempt) (i : ℕ)
      → a.spurious ≡ true
      → locked_round again a i ≡ again (a.others i)
  unfolding locked_round
  round-lost again a i lost = rw (lost, cpu.lost_law (f (a.others i)) (a.others i)) refl

  round-kept :
      (again : ℕ → Run (ℕ × ℕ)) (a : Attempt) (i : ℕ)
      → a.spurious ≡ false
      → locked_round again a i ≡ ok (a.others i, f (a.others i))
  unfolding locked_round
  round-kept again a i kept = rw (kept, cpu.kept_law (f (a.others i)) (a.others i)) refl

  -- A round that keeps its reservation does what one call of a compare and swap does.
  kept-Swaps :
      (w : ℕ) (a : Attempt) (i : ℕ)
      → a.spurious ≡ false
      → Swaps (word w) f a i (a.others i, f (a.others i))
  kept-Swaps w a i kept =
      let same : (a.others i == a.others i) ≡ true = ground arith in
      (refl, call-swaps a (a.others i) (f (a.others i)) i kept same, refl)

  pub locked_loop-Modified :
      (w : ℕ) (attempts : List Attempt) (i : ℕ)
      → Returns (Modified (word w) f attempts i) (locked_loop attempts i)
  unfolding locked_loop
  locked_loop-Modified w [] i =
      ((i, f i), round-kept (λ _. out_of_fuel) calm i refl, kept-Swaps w calm i refl)
  locked_loop-Modified w (a ∷ more) i = elim (Bool-cases a.spurious) [
    | inl lost ↦
        let (out, run, after) = locked_loop-Modified w more (a.others i) in
        (out, round-lost (locked_loop more) a i lost ∙ run, inr after)
    | inr kept ↦ (
      (a.others i, f (a.others i)),
      round-kept (locked_loop more) a i kept,
      inl (kept-Swaps w a i kept),
    )
  ]
