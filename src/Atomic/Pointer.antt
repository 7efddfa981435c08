-- ===== src/Atomic/Pointer.antt =====
-- boost/atomic.hpp: `atomic<T *>` for a `T` of `size_of` bytes, on what it inherits of
-- `internal_atomic<intptr_t>`. A pointer, converted to `intptr_t` and back, is its address; a
-- `ptrdiff_t` is a word of 64 bits. What an operation returns stands before the word.
use boost_lockfree.Prelude.{ℕ, ◌+◌, ◌-◌, ◌*◌, ◌%◌, ◌^◌, ◌<◌, ◌≡◌, subst, ◌∙◌, arith, Bool, List}
use boost_lockfree.Atomic.Order.{MemoryOrder, seq_cst, calculate_failure_order}
use boost_lockfree.Atomic.Platform.{Event, AtomicClass, IsAddition}
use boost_lockfree.Atomic.Front.{fetch_sub}

module _ (size_of : ℕ) (super : AtomicClass)
    (super_fetch_add : ℕ → MemoryOrder → ℕ → ℕ × ℕ × List Event) where
  unfoldable pub load : MemoryOrder → ℕ → ℕ × List Event
  load order i = super.load order i

  unfoldable pub store : ℕ → MemoryOrder → ℕ → ℕ × List Event
  store v order i = super.store v order i

  unfoldable pub compare_exchange_weak :
      ℕ → ℕ → MemoryOrder → MemoryOrder → ℕ → Bool × ℕ × ℕ × List Event
  compare_exchange_weak expected desired success_order failure_order i =
      super.compare_exchange_weak expected desired success_order failure_order i

  unfoldable pub compare_exchange_strong :
      ℕ → ℕ → MemoryOrder → MemoryOrder → ℕ → Bool × ℕ × ℕ × List Event
  compare_exchange_strong expected desired success_order failure_order i =
      super.compare_exchange_strong expected desired success_order failure_order i

  unfoldable pub compare_exchange_strong_order : ℕ → ℕ → MemoryOrder → ℕ → Bool × ℕ × ℕ × List Event
  compare_exchange_strong_order expected desired order i =
      compare_exchange_strong expected desired order (calculate_failure_order order) i

  unfoldable pub compare_exchange_weak_order : ℕ → ℕ → MemoryOrder → ℕ → Bool × ℕ × ℕ × List Event
  compare_exchange_weak_order expected desired order i =
      compare_exchange_weak expected desired order (calculate_failure_order order) i

  unfoldable pub exchange : ℕ → MemoryOrder → ℕ → ℕ × ℕ × List Event
  exchange replacement order i = super.exchange replacement order i

  unfoldable pub fetch_add : ℕ → MemoryOrder → ℕ → ℕ × ℕ × List Event
  fetch_add diff order i = super_fetch_add (diff * size_of % 2 ^ 64) order i

  unfoldable pub fetch_sub_pointer : ℕ → MemoryOrder → ℕ → ℕ × ℕ × List Event
  unfolding fetch_sub
  fetch_sub_pointer diff order i = fetch_sub 64 super_fetch_add (diff * size_of % 2 ^ 64) order i

  -- `operator T *` and `operator=`
  unfoldable pub convert : ℕ → ℕ × List Event
  unfolding load
  convert i = load seq_cst i

  unfoldable pub assign : ℕ → ℕ → ℕ × ℕ × List Event
  unfolding store
  assign v i = let (i', events) = store v seq_cst i in (v, i', events)

  unfoldable pub pre_increment : ℕ → ℕ × ℕ × List Event
  unfolding fetch_add
  pre_increment i =
      let (p, i', events) = fetch_add 1 seq_cst i in ((p + size_of) % 2 ^ 64, i', events)

  unfoldable pub post_increment : ℕ → ℕ × ℕ × List Event
  unfolding fetch_add
  post_increment i = fetch_add 1 seq_cst i

  unfoldable pub pre_decrement : ℕ → ℕ × ℕ × List Event
  unfolding fetch_sub_pointer
  pre_decrement i =
      let (p, i', events) = fetch_sub_pointer 1 seq_cst i in
      ((p + (2 ^ 64 - size_of % 2 ^ 64)) % 2 ^ 64, i', events)

  unfoldable pub post_decrement : ℕ → ℕ × ℕ × List Event
  unfolding fetch_sub_pointer
  post_decrement i = fetch_sub_pointer 1 seq_cst i

  -- A modification finds the address `p` and leaves `q`.
  abbrev pub Moves : ℕ → ℕ → ℕ × ℕ × List Event → Type 0
  Moves p q r = (r.0 ≡ p) × (r.1 ≡ q)

  module _ (addition : IsAddition 64 super_fetch_add) where
    fetch_add-Moves :
        (diff : ℕ) (o : MemoryOrder) (p : ℕ)
        → p + diff * size_of < 2 ^ 64
        → Moves p (p + diff * size_of) (fetch_add diff o p)
    unfolding fetch_add
    fetch_add-Moves diff o p fits =
        let (old, new) = addition (diff * size_of % 2 ^ 64) o p in (old, new ∙ omega (arith, fits))

    fetch_sub-Moves :
        (diff : ℕ) (o : MemoryOrder) (p : ℕ)
        → p + diff * size_of < 2 ^ 64
        → Moves (p + diff * size_of) p (fetch_sub_pointer diff o (p + diff * size_of))
    unfolding fetch_sub_pointer fetch_sub
    fetch_sub-Moves diff o p fits =
        let (old, new) =
          addition ((2 ^ 64 - diff * size_of % 2 ^ 64 % 2 ^ 64) % 2 ^ 64) o (p + diff * size_of) in
        (old, new ∙ omega (arith, fits))

    one : 1 * size_of ≡ size_of
    one = omega arith

    -- On a pointer to an element of an array, `fetch_add` moves it `diff` elements on and returns it
    -- as it was, `fetch_sub` moves it back, the increment and the decrement move it by one and return
    -- what they leave, and their postfix forms what they found. The array lies within the 64 bits of
    -- the address, and what the class inherits adds on 64 bits.
    pub pointer_arithmetic :
        (diff : ℕ) (o : MemoryOrder) (p : ℕ)
        → p + diff * size_of < 2 ^ 64
        → p + size_of < 2 ^ 64
        → Moves p (p + diff * size_of) (fetch_add diff o p)
          × Moves (p + diff * size_of) p (fetch_sub_pointer diff o (p + diff * size_of))
          × Moves (p + size_of) (p + size_of) (pre_increment p)
          × Moves p (p + size_of) (post_increment p)
          × Moves p p (pre_decrement (p + size_of))
          × Moves (p + size_of) p (post_decrement (p + size_of))
    unfolding pre_increment post_increment pre_decrement post_decrement
    pointer_arithmetic diff o p fits fits_one =
        let up = fetch_add-Moves 1 seq_cst p (omega (arith, fits_one)) in
        let down =
          subst (λ k. Moves (p + k) p (fetch_sub_pointer 1 seq_cst (p + k))) one
            (fetch_sub-Moves 1 seq_cst p (omega (arith, fits_one))) in
        (
          fetch_add-Moves diff o p fits,
          fetch_sub-Moves diff o p fits,
          (omega (arith, up.0), omega (arith, up.1)),
          (up.0, omega (arith, up.1)),
          (omega (arith, down.0), down.1),
          down,
        )
