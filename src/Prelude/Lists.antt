-- ===== src/Prelude/Lists.antt =====
-- Lists measured by native numbers, and lists that are tabulated from a function.
use Prim.Native.Nat.{ℕ, zero, suc, ◌+◌, ◌≤◌, ◌<◌}
use mathlib.Core.Path.{◌≡◌, refl, ap, ap₂, ◌∙◌}
use mathlib.Core.List.{List, [], ◌∷◌, ◌++◌}
use native.Mathlib.Omega.{arith}

module _ {ℓ} {A : Type ℓ} where
  abbrev pub length : List A → ℕ
  length [] = 0
  length (x ∷ xs) = suc (length xs)

  abbrev pub take : ℕ → List A → List A
  take zero xs = []
  take (suc n) [] = []
  take (suc n) (x ∷ xs) = x ∷ take n xs

  abbrev pub drop : ℕ → List A → List A
  drop zero xs = xs
  drop (suc n) [] = []
  drop (suc n) (x ∷ xs) = drop n xs

  pub length-append : (xs ys : List A) → length (xs ++ ys) ≡ length xs + length ys
  length-append [] ys = omega arith
  length-append (x ∷ xs) ys = omega (arith, length-append xs ys)

  -- `f 0`, …, `f (n - 1)`
  abbrev pub tabulate : ℕ → (ℕ → A) → List A
  tabulate zero f = []
  tabulate (suc n) f = f 0 ∷ tabulate n (λ i. f (i + 1))

  pub length-tabulate : (n : ℕ) (f : ℕ → A) → length (tabulate n f) ≡ n
  length-tabulate zero f = refl
  length-tabulate (suc n) f = ap suc (length-tabulate n (λ i. f (i + 1)))

  pub tabulate_ext :
      (n : ℕ) (f g : ℕ → A) → ((i : ℕ) → i < n → f i ≡ g i) → tabulate n f ≡ tabulate n g
  tabulate_ext zero f g h = refl
  tabulate_ext (suc n) f g h =
      ap₂ ◌∷◌ (h 0 (omega arith))
        (tabulate_ext n (λ i. f (i + 1)) (λ i. g (i + 1)) (λ i lt. h (i + 1) (omega arith)))

  pub tabulate-add :
      (n k : ℕ) (f : ℕ → A) → tabulate (n + k) f ≡ tabulate n f ++ tabulate k (λ i. f (n + i))
  tabulate-add zero k f =
      ap (λ t. tabulate t f) (omega arith)
      ∙ tabulate_ext k f (λ i. f (0 + i)) (λ i lt. ap f (omega arith))
  tabulate-add (suc n) k f =
      ap (λ t. tabulate t f) count
      ∙ ap (λ t. f 0 ∷ t) (tabulate-add n k (λ i. f (i + 1)))
      ∙ ap (λ t. f 0 ∷ (tabulate n (λ i. f (i + 1)) ++ t))
          (tabulate_ext k (λ i. f (n + i + 1)) (λ i. f (suc n + i)) (λ i lt. ap f (omega arith)))
    where
      count : suc n + k ≡ suc (n + k)
      count = omega arith

  pub take-tabulate : (n k : ℕ) (f : ℕ → A) → k ≤ n → take k (tabulate n f) ≡ tabulate k f
  take-tabulate n zero f h = refl
  take-tabulate zero (suc k) f h = elim h [ ]
  take-tabulate (suc n) (suc k) f h =
      ap (λ t. f 0 ∷ t) (take-tabulate n k (λ i. f (i + 1)) (omega arith))

  pub take-append : (xs ys : List A) → take (length xs) (xs ++ ys) ≡ xs
  take-append [] ys = refl
  take-append (x ∷ xs) ys = ap (λ t. x ∷ t) (take-append xs ys)

  pub drop-append : (xs ys : List A) → drop (length xs) (xs ++ ys) ≡ ys
  drop-append [] ys = refl
  drop-append (x ∷ xs) ys = drop-append xs ys
