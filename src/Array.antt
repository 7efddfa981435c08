-- ===== src/Array.antt =====
-- C++ arrays of a fixed size, with the range checks that make an access out of bounds a fault, and
-- `std::copy` between two of them.
use boost_lockfree.Prelude.{
  ℕ, ◌+◌, ◌-◌, ◌≤◌, ◌<◌, ◌≡◌, ◌&&◌, List, arith, ltb, leb, ◌==◌, if◌then◌else◌, Run, ok, fault,
  tabulate,
}

pub record Array {ℓ} (A : Type ℓ) : Type ℓ where
  pub size : ℕ
  pub at : ℕ → A

module _ {ℓ} {A : Type ℓ} where
  -- `buffer[i]` as a value
  unfoldable pub read : Array A → ℕ → Run A
  read a i = if ltb i a.size then ok (a.at i) else fault

  abbrev pub update : (ℕ → A) → ℕ → A → ℕ → A
  update f i v j = if j == i then v else f j

  -- `buffer[i] = v`
  unfoldable pub write : Array A → ℕ → A → Run (Array A)
  write a i v = if ltb i a.size then ok (record { size = a.size; at = update a.at i v }) else fault

  -- What `std::copy(src + first, src + first + n, dst + to)` leaves in the destination.
  abbrev pub overlay : (ℕ → A) → ℕ → ℕ → (ℕ → A) → ℕ → ℕ → A
  overlay src first n dst to j =
      if leb to j && ltb j (to + n) then src (first + (j - to)) else dst j

  -- `std::copy(src + first, src + first + n, dst + to)` for arrays that do not overlap
  unfoldable pub copy : Array A → ℕ → ℕ → Array A → ℕ → Run (Array A)
  copy src first n dst to =
      if leb (first + n) src.size && leb (to + n) dst.size
      then ok (record { size = dst.size; at = overlay src.at first n dst.at to })
      else fault

  -- the `n` elements from index `first` on
  abbrev pub slice : Array A → ℕ → ℕ → List A
  slice a first n = tabulate n (λ i. a.at (first + i))

  -- reading `n` elements from index `first` on, as `std::copy(src + first, src + first + n, it)`
  unfoldable pub read_slice : Array A → ℕ → ℕ → Run (List A)
  read_slice a first n = if leb (first + n) a.size then ok (slice a first n) else fault

  pub read-ok : (a : Array A) (i : ℕ) → i < a.size → read a i ≡ ok (a.at i)
  unfolding read
  read-ok a i h = ground arith

  pub write-ok :
      (a : Array A) (i : ℕ) (v : A)
      → i < a.size
      → write a i v ≡ ok (record { size = a.size; at = update a.at i v })
  unfolding write
  write-ok a i v h = ground arith

  pub copy-ok :
      (src : Array A) (first n : ℕ) (dst : Array A) (to : ℕ)
      → first + n ≤ src.size
      → to + n ≤ dst.size
      → copy src first n dst to
        ≡ ok (record { size = dst.size; at = overlay src.at first n dst.at to })
  unfolding copy
  copy-ok src first n dst to h k = ground arith

  pub read_slice-ok :
      (a : Array A) (first n : ℕ) → first + n ≤ a.size → read_slice a first n ≡ ok (slice a first n)
  unfolding read_slice
  read_slice-ok a first n h = ground arith
