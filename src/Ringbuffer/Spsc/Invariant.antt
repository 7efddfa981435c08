-- ===== src/Ringbuffer/Spsc/Invariant.antt =====
-- The invariant of the two threads, and what a write to an index does to the elements held.
use boost_lockfree.Prelude.{
  ℕ, ◌+◌, ◌^◌, ◌≤◌, ◌<◌, ◌≡◌, ◌≢◌, refl, sym, ap, tabulate_ext, ◌∙◌, arith, List, [], ◌∷◌, ◌++◌, ok,
}
use boost_lockfree.Array.{update}
use boost_lockfree.Ringbuffer.{RingbufferBase, next_index}
use boost_lockfree.Ringbuffer.Bounds.{used, wrap, next_index-wrap}
use boost_lockfree.Ringbuffer.Contents.{contents, contents_grow, contents_shrink}
use boost_lockfree.Ringbuffer.Spsc.{Shared, Producer, Consumer}

eq_of_ok : {a b : ℕ} → ok a ≡ ok b → a ≡ b
eq_of_ok e = cc

-- What `next_index` gave is the next index round the end.
pub next-eq : (m i next : ℕ) → next_index i m ≡ ok next → i < m → m ≤ 2 ^ 63 → next ≡ wrap m (i + 1)
next-eq m i next e inside small = eq_of_ok (sym e ∙ next_index-wrap i m inside small)

module _ {A : Type 0} (m : ℕ) where
  abbrev pub base : Shared A → RingbufferBase
  base s = record { write_index = s.write_index; read_index = s.read_index }

  -- the elements that stand in the buffer
  abbrev pub held : Shared A → List A
  held s = contents m s.cells (base s)

  -- What the producer knows at each place: the write index is its own, and the place found free
  -- stays free.
  abbrev pub ProducerInv : Shared A → Producer A → Type 0
  ProducerInv s Producer.idle = Unit {0}
  ProducerInv s (Producer.loaded t w) = w ≡ s.write_index
  ProducerInv s (Producer.checked t w next) =
      (w ≡ s.write_index)
      × (next ≡ wrap m (s.write_index + 1))
      × (used s.write_index s.read_index m + 1 < m)
  ProducerInv s (Producer.written t next) =
      (s.cells s.write_index ≡ t)
      × (next ≡ wrap m (s.write_index + 1))
      × (used s.write_index s.read_index m + 1 < m)

  -- What the consumer knows: the read index is its own, the write index it has loaded is at or
  -- behind the present one, and the element it has fetched is still the oldest.
  abbrev pub ConsumerInv : Shared A → Consumer A → Type 0
  ConsumerInv s Consumer.idle = Unit {0}
  ConsumerInv s (Consumer.loaded w) =
      (w < m) × (used w s.read_index m ≤ used s.write_index s.read_index m)
  ConsumerInv s (Consumer.indexed w r) =
      (w < m) × (used w s.read_index m ≤ used s.write_index s.read_index m) × (r ≡ s.read_index)
  ConsumerInv s (Consumer.fetched v r) =
      (r ≡ s.read_index) × (v ≡ s.cells s.read_index) × (s.write_index ≢ s.read_index)

  -- What holds between any two steps.
  pub record SharedInv (s : Shared A) : Type 0 where
    pub write_in : s.write_index < m
    pub read_in : s.read_index < m
    pub small : m ≤ 2 ^ 63
    pub fifo : s.sent ≡ s.received ++ held s

  pub record Inv (s : Shared A) (p : Producer A) (c : Consumer A) : Type 0 where
    pub shared : SharedInv s
    pub producer : ProducerInv s p
    pub consumer : ConsumerInv s c

  -- A write to a free place changes nothing that is held.
  pub held-update :
      (s : Shared A) (t : A)
      → SharedInv s
      → used s.write_index s.read_index m + 1 < m
      → held (record s { cells = update s.cells s.write_index t }) ≡ held s
  held-update s t i free = tabulate_ext (used s.write_index s.read_index m) _ _ λ k lt. ground arith

  -- Publishing the element written at the write index appends it.
  pub held-publish :
      (s : Shared A) (next : ℕ)
      → SharedInv s
      → ProducerInv s (Producer.written (s.cells s.write_index) next)
      → held (record s { write_index = next }) ≡ held s ++ s.cells s.write_index ∷ []
  held-publish s next i (written, e, free) = rw e (
      contents_grow m s.write_index s.read_index 1 i.write_in i.read_in s.cells s.cells
        (λ k. s.cells s.write_index) (omega arith) (λ k lt. refl)
        (λ k lt. ap s.cells (ground arith)))

  -- Moving the read index drops the oldest element.
  pub held-release :
      (s : Shared A) (next : ℕ)
      → SharedInv s
      → next ≡ wrap m (s.read_index + 1)
      → s.write_index ≢ s.read_index
      → held s ≡ s.cells s.read_index ∷ held (record s { read_index = next })
  held-release s next i e filled = rw e (
      contents_shrink m s.write_index s.read_index 1 i.write_in i.read_in s.cells (ground arith)
      ∙ ap
          (λ k.
            s.cells k
            ∷ contents m s.cells
                (record { write_index = s.write_index; read_index = wrap m (s.read_index + 1) }))
          (ground arith))
