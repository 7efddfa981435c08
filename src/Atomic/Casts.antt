-- ===== src/Atomic/Casts.antt =====
-- boost/atomic/detail/integral-casts.hpp: `platform_atomic<T>` for a `T` of 1, 2, 4 or 8 bytes, whose
-- bytes go to an integer of that size and back by `memcpy`. The four texts differ in the size only.
-- Numbers are read as on a little-endian machine; another byte order permutes both copies alike.
use native.Mathlib.Nat.{pow-suc}
use boost_lockfree.Prelude.{
  ℕ, zero, suc, ◌+◌, ◌*◌, ◌/◌, ◌%◌, ◌^◌, ◌<◌, ◌≡◌, refl, sym, ap, ◌∙◌, arith, Bool, true, false,
  ◌==◌, ==_iff, if◌then◌else◌, List, [], ◌∷◌, length, ◌↔◌,
}
use boost_lockfree.Atomic.Order.{MemoryOrder}
use boost_lockfree.Atomic.Platform.{Event, AtomicClass, IsAtomic}

abbrev pub IsBytes : List ℕ → Type 0
IsBytes [] = Unit {0}
IsBytes (b ∷ bs) = (b < 256) × IsBytes bs

-- The number that bytes spell, and the `n` bytes of a number.
abbrev pub spell : List ℕ → ℕ
spell [] = 0
spell (b ∷ bs) = b + 256 * spell bs

abbrev pub unspell : ℕ → ℕ → List ℕ
unspell zero w = []
unspell (suc n) w = w % 256 ∷ unspell n (w / 256)

-- A trivially copyable type of `n` bytes: an object is given by its bytes.
pub record Object (T : Type 0) (n : ℕ) : Type 0 where
  pub bytes : T → List ℕ
  pub of_bytes : List ℕ → T
  pub size : (t : T) → length (bytes t) ≡ n
  pub are_bytes : (t : T) → IsBytes (bytes t)
  pub of_bytes-bytes : (t : T) → of_bytes (bytes t) ≡ t

-- The operations on the word of an object.
pub record AtomicObject (T : Type 0) : Type 0 where
  pub load : MemoryOrder → ℕ → T × List Event
  pub store : T → MemoryOrder → ℕ → ℕ × List Event
  pub compare_exchange_strong : T → T → MemoryOrder → MemoryOrder → ℕ → Bool × T × ℕ × List Event
  pub compare_exchange_weak : T → T → MemoryOrder → MemoryOrder → ℕ → Bool × T × ℕ × List Event
  pub exchange : T → MemoryOrder → ℕ → T × ℕ × List Event

module _ {T : Type 0} {n : ℕ} (object : Object T n) where
  unfoldable pub to_integral : T → ℕ
  to_integral t = spell (object.bytes t)

  unfoldable pub from_integral : ℕ → T
  from_integral w = object.of_bytes (unspell n w)

  module _ (super : AtomicClass) where
    unfoldable pub store : T → MemoryOrder → ℕ → ℕ × List Event
    store t order i = super.store (to_integral t) order i

    unfoldable pub load : MemoryOrder → ℕ → T × List Event
    load order i = let (w, events) = super.load order i in (from_integral w, events)

    unfoldable pub compare_exchange_strong :
        T → T → MemoryOrder → MemoryOrder → ℕ → Bool × T × ℕ × List Event
    compare_exchange_strong expected desired success_order failure_order i =
        let (success, expected', i', events) =
          super.compare_exchange_strong (to_integral expected) (to_integral desired) success_order
            failure_order i in
        (success, from_integral expected', i', events)

    unfoldable pub compare_exchange_weak :
        T → T → MemoryOrder → MemoryOrder → ℕ → Bool × T × ℕ × List Event
    compare_exchange_weak expected desired success_order failure_order i =
        let (success, expected', i', events) =
          super.compare_exchange_weak (to_integral expected) (to_integral desired) success_order
            failure_order i in
        (success, from_integral expected', i', events)

    unfoldable pub exchange : T → MemoryOrder → ℕ → T × ℕ × List Event
    exchange replacement order i =
        let (old, i', events) = super.exchange (to_integral replacement) order i in
        (from_integral old, i', events)

    abbrev pub platform_atomic : AtomicObject T
    platform_atomic = record {
      load = load;
      store = store;
      compare_exchange_strong = compare_exchange_strong;
      compare_exchange_weak = compare_exchange_weak;
      exchange = exchange;
    }

-- The class of each size.
module _ {T : Type 0} where
  abbrev pub platform_atomic_1 : Object T 1 → AtomicClass → AtomicObject T
  platform_atomic_1 object super = platform_atomic object super

  abbrev pub platform_atomic_2 : Object T 2 → AtomicClass → AtomicObject T
  platform_atomic_2 object super = platform_atomic object super

  abbrev pub platform_atomic_4 : Object T 4 → AtomicClass → AtomicObject T
  platform_atomic_4 object super = platform_atomic object super

  abbrev pub platform_atomic_8 : Object T 8 → AtomicClass → AtomicObject T
  platform_atomic_8 object super = platform_atomic object super

unspell-spell : (n : ℕ) (bs : List ℕ) → length bs ≡ n → IsBytes bs → unspell n (spell bs) ≡ bs
unspell-spell zero [] e h = refl
unspell-spell zero (b ∷ bs) e h = absurd (omega (arith, e))
unspell-spell (suc n) [] e h = absurd (omega (arith, e))
unspell-spell (suc n) (b ∷ bs) e h =
    let low : (b + 256 * spell bs) % 256 ≡ b = omega (arith, h.0) in
    let high : (b + 256 * spell bs) / 256 ≡ spell bs = omega (arith, h.0) in
    rw (low, high, unspell-spell n bs (omega (arith, e)) h.1) refl

spell-lt : (n : ℕ) (bs : List ℕ) → length bs ≡ n → IsBytes bs → spell bs < 256 ^ n
spell-lt zero [] e h = omega arith
spell-lt zero (b ∷ bs) e h = absurd (omega (arith, e))
spell-lt (suc n) [] e h = absurd (omega (arith, e))
spell-lt (suc n) (b ∷ bs) e h =
    omega (arith, pow-suc 256 n, spell-lt n bs (omega (arith, e)) h.1, h.0)

-- What an atomic variable of type `T` does, whatever the memory orders, when its word is that of an
-- object.
pub record IsAtomicObject {T : Type 0} {n : ℕ} (object : Object T n) (c : AtomicObject T)
    : Type 0 where
  pub loads : (o : MemoryOrder) (t : T) → (c.load o (to_integral object t)).0 ≡ t
  pub stores : (v : T) (o : MemoryOrder) (i : ℕ) → (c.store v o i).0 ≡ to_integral object v
  pub compares :
      (e d : T) (s f : MemoryOrder) (t : T)
      → let r = c.compare_exchange_strong e d s f (to_integral object t) in
        ((r.0 ≡ true) ↔ (e ≡ t)) × (r.1 ≡ t) × (r.2 ≡ to_integral object (if r.0 then d else t))
  pub never_spurious :
      (e d : T) (s f : MemoryOrder) (i : ℕ)
      → c.compare_exchange_weak e d s f i ≡ c.compare_exchange_strong e d s f i
  pub swaps :
      (r : T) (o : MemoryOrder) (t : T)
      → let x = c.exchange r o (to_integral object t) in (x.0 ≡ t) × (x.1 ≡ to_integral object r)

module _ {T : Type 0} {n : ℕ} (object : Object T n) (super : AtomicClass) where
  from-to : (t : T) → from_integral object (to_integral object t) ≡ t
  unfolding from_integral to_integral
  from-to t =
      ap object.of_bytes (unspell-spell n (object.bytes t) (object.size t) (object.are_bytes t))
      ∙ object.of_bytes-bytes t

  to-lt : (t : T) → to_integral object t < 256 ^ n
  unfolding to_integral
  to-lt t = spell-lt n (object.bytes t) (object.size t) (object.are_bytes t)

  to_integral-injective : (t u : T) → to_integral object t ≡ to_integral object u → t ≡ u
  to_integral-injective t u e = sym (from-to t) ∙ ap (from_integral object) e ∙ from-to u

  -- The integers compare as the objects do.
  compared : (e t : T) → ((to_integral object e == to_integral object t) ≡ true) ↔ (e ≡ t)
  compared e t = (
    λ h. to_integral-injective e t ((==_iff (to_integral object e) (to_integral object t)).0 h),
    λ h. (==_iff (to_integral object e) (to_integral object t)).1 (ap (to_integral object) h),
  )

  which :
      (b : Bool) (d t : T)
      → (if b then to_integral object d else to_integral object t)
        ≡ to_integral object (if b then d else t)
  which true d t = refl
  which false d t = refl

  -- `platform_atomic<T>` is an atomic variable of type `T`, and `memcpy` to an integer of the size of
  -- `T` and back gives the object again, when what it inherits is an atomic integer.
  pub casts-IsAtomicObject :
      IsAtomic super
      → IsAtomicObject object (platform_atomic object super)
        × ((t : T)
            → (from_integral object (to_integral object t) ≡ t) × (to_integral object t < 256 ^ n))
  unfolding load store compare_exchange_strong compare_exchange_weak exchange
  casts-IsAtomicObject right = (
    record {
      loads = λ o t. ap (from_integral object) (right.loads o (to_integral object t)) ∙ from-to t;
      stores = λ v o i. right.stores (to_integral object v) o i;
      compares = λ e d s f t.
          let (found, reported, left) =
            right.compares (to_integral object e) (to_integral object d) s f
              (to_integral object t) in
          (
            rw found (compared e t),
            ap (from_integral object) reported ∙ from-to t,
            left ∙ rw found (which (to_integral object e == to_integral object t) d t),
          );
      never_spurious = λ e d s f i.
          rw (right.never_spurious (to_integral object e) (to_integral object d) s f i) refl;
      swaps = λ r o t.
          let (old, left) = right.swaps (to_integral object r) o (to_integral object t) in
          (ap (from_integral object) old ∙ from-to t, left);
    },
    λ t. (from-to t, to-lt t),
  )
