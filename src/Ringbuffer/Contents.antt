-- ===== src/Ringbuffer/Contents.antt =====
-- What a ring buffer holds, as a list with the oldest element first, and how the list grows and
-- shrinks when the indices move.
use boost_lockfree.Prelude.{
  ℕ, ◌+◌, ◌≤◌, ◌<◌, ◌≡◌, ap, ap₂, ◌∙◌, arith, List, [], ◌++◌, length, tabulate, length-tabulate,
  tabulate_ext, tabulate-add,
}
use boost_lockfree.Array.{Array}
use boost_lockfree.Ringbuffer.{RingbufferBase}
use boost_lockfree.Ringbuffer.Bounds.{IsValid, used, wrap}

-- the `n` elements from index `r` on, going round at `m`
abbrev pub window {ℓ} : {A : Type ℓ} → ℕ → (ℕ → A) → ℕ → ℕ → List A
window m at r n = tabulate n (λ i. at (wrap m (r + i)))

abbrev pub contents {ℓ} : {A : Type ℓ} → ℕ → (ℕ → A) → RingbufferBase → List A
contents m at b = window m at b.read_index (used b.write_index b.read_index m)

pub length-contents {ℓ} :
    {A : Type ℓ} (m : ℕ) (at : ℕ → A) (b : RingbufferBase)
    → length (contents m at b) ≡ used b.write_index b.read_index m
length-contents m at b = length-tabulate _ (λ i. at (wrap m (b.read_index + i)))

module _ {ℓ} {A : Type ℓ} where
  -- What a call that may write leaves behind: `q` is held, the invariant is kept.
  pub record Holds (buffer : Array A) (max_size : ℕ) (q : List A) (buffer' : Array A)
      (b' : RingbufferBase) : Type ℓ where
    pub items : contents max_size buffer'.at b' ≡ q
    pub valid : IsValid b' buffer'.size max_size
    pub same_size : buffer'.size ≡ buffer.size

pub contents-nil {ℓ} :
    {A : Type ℓ} (m : ℕ) (at : ℕ → A) (b : RingbufferBase)
    → b.write_index ≡ b.read_index
    → contents m at b ≡ []
contents-nil m at b e = ap (window m at b.read_index) nothing
  where
    nothing : used b.write_index b.read_index m ≡ 0
    nothing = ground arith

module _ {ℓ} {A : Type ℓ} (m w r k : ℕ) (hw : w < m) (hr : r < m) where
  -- Moving the write index by `k` free places appends what stands there.
  pub contents_grow :
      (at at' : ℕ → A) (new : ℕ → A)
      → k + used w r m < m
      → ((i : ℕ) → i < used w r m → at' (wrap m (r + i)) ≡ at (wrap m (r + i)))
      → ((i : ℕ) → i < k → at' (wrap m (w + i)) ≡ new i)
      → contents m at' (record { write_index = wrap m (w + k); read_index = r })
        ≡ contents m at (record { write_index = w; read_index = r }) ++ tabulate k new
  contents_grow at at' new room old fresh =
      ap (window m at' r) count
      ∙ tabulate-add (used w r m) k (λ i. at' (wrap m (r + i)))
      ∙ ap₂ ◌++◌ (tabulate_ext (used w r m) _ _ old)
          (tabulate_ext k _ _ (λ i lt. ap at' (place i lt) ∙ fresh i lt))
    where
      count : used (wrap m (w + k)) r m ≡ used w r m + k
      count = ground arith

      place : (i : ℕ) → i < k → wrap m (r + (used w r m + i)) ≡ wrap m (w + i)
      place i lt = ground arith

  -- Moving the read index by `k` filled places drops the oldest `k` elements.
  pub contents_shrink :
      (at : ℕ → A)
      → k ≤ used w r m
      → contents m at (record { write_index = w; read_index = r })
        ≡ window m at r k ++ contents m at (record { write_index = w; read_index = wrap m (r + k) })
  contents_shrink at enough =
      ap (window m at r) count
      ∙ tabulate-add k (used w (wrap m (r + k)) m) (λ i. at (wrap m (r + i)))
      ∙ ap (λ t. window m at r k ++ t) (tabulate_ext _ _ _ (λ i lt. ap at (place i lt)))
    where
      count : used w r m ≡ k + used w (wrap m (r + k)) m
      count = ground arith

      place :
          (i : ℕ)
          → i < used w (wrap m (r + k)) m
          → wrap m (r + (k + i)) ≡ wrap m (wrap m (r + k) + i)
      place i lt = ground arith
