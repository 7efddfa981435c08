-- ===== src/Fifo/Pointers.antt =====
-- boost/lockfree/fifo.hpp: the specialization `fifo<T*, freelist_t, Alloc>`, whose values are
-- pointers. The smart pointers are code outside the repository: the state of one, with the counts that
-- it shares, is of any type, and its `reset` is any function on that; what it deletes is `reset`'s. A
-- `scoped_ptr` is the address inside it, which `dequeue` writes over.
use boost_lockfree.Prelude.{
  ℕ, ◌≡◌, refl, Bool, true, false, if◌then◌else◌, List, [], ◌∷◌, Run, ok, ◌>>=◌, Returns,
}
use boost_lockfree.TaggedPtr.{TaggedPtrOps}
use boost_lockfree.Memory.{null, Allocator}
use boost_lockfree.Fifo.{Fifo}
use boost_lockfree.Fifo as Base
use boost_lockfree.Fifo.Spec
use boost_lockfree.Fifo.Spec.{View}
use boost_lockfree.Fifo.Invariant.{Holds}
use boost_lockfree.Fifo.Dequeue.{dequeue_unsafe_refines}
use boost_lockfree.Fifo.AgreeDequeue.{dequeue-agree}

-- `reset(p)` of a smart pointer: what becomes of it, and the objects that are deleted.
abbrev pub Reset : Type 0 → Type 0
Reset S = ℕ → S → S × List ℕ

module _ (P : TaggedPtrOps) (failures freed : List Bool) where
  -- The operations return whether they succeeded, the smart pointer and the objects deleted.
  unfoldable pub dequeue_smart_ptr :
      {S : Type 0} → Reset S → S → Fifo P.Rep ℕ → Run (Bool × S × List ℕ × Fifo P.Rep ℕ)
  dequeue_smart_ptr reset ptr self =
      Base.dequeue P failures freed null self >>= λ (success, result, self').
      let (held, deleted) = reset result ptr in
      if success then ok (success, held, deleted, self') else ok (success, ptr, [], self')

  unfoldable pub dequeue : ℕ → Fifo P.Rep ℕ → Run (Bool × ℕ × Fifo P.Rep ℕ)
  dequeue ret self = Base.dequeue P failures freed ret self

  -- the overloads for `std::auto_ptr`, `boost::scoped_ptr` and `boost::shared_ptr`
  unfoldable pub dequeue_auto_ptr :
      {S : Type 0} → Reset S → S → Fifo P.Rep ℕ → Run (Bool × S × List ℕ × Fifo P.Rep ℕ)
  unfolding dequeue_smart_ptr
  dequeue_auto_ptr reset ret self = dequeue_smart_ptr reset ret self

  -- The pointer inside the smart pointer is written over.
  unfoldable pub dequeue_scoped_ptr : ℕ → Fifo P.Rep ℕ → Run (Bool × ℕ × List ℕ × Fifo P.Rep ℕ)
  unfolding dequeue
  dequeue_scoped_ptr ret self =
      dequeue ret self >>= λ (success, ret', self'). ok (success, ret', [], self')

  unfoldable pub dequeue_shared_ptr :
      {S : Type 0} → Reset S → S → Fifo P.Rep ℕ → Run (Bool × S × List ℕ × Fifo P.Rep ℕ)
  unfolding dequeue_smart_ptr
  dequeue_shared_ptr reset ret self = dequeue_smart_ptr reset ret self

-- The oldest pointer of the fifo goes to the smart pointer.
abbrev pub handed : {S : Type 0} → Reset S → S → List ℕ → S × List ℕ
handed reset ptr [] = (ptr, [])
handed reset ptr (x ∷ xs) = reset x ptr

-- The address in the smart pointer is written over, and nothing deleted.
abbrev pub overwrite : Reset ℕ
overwrite p held = (p, [])

module _ {P : TaggedPtrOps} (al : Allocator P ℕ) (failures freed : List Bool) where
  abbrev pub Dequeued :
      {S : Type 0} → Reset S → S → View ℕ → Bool × S × List ℕ × Fifo P.Rep ℕ → Type 0
  Dequeued reset ptr s (done, ptr', deleted, self') =
      (done ≡ (Spec.dequeue null s).0)
      × ((ptr', deleted) ≡ handed reset ptr s.items)
      × Holds al self' (Spec.dequeue null s).2

  abbrev view_of : List ℕ → ℕ → View ℕ
  view_of items spare = record { items = items; spare = spare }

  module _ (self : Fifo P.Rep ℕ) where
    smart_ptr-at :
        {S : Type 0} (reset : Reset S) (ptr : S) (items : List ℕ) (n : ℕ)
        → Holds al self (view_of items n)
        → Returns
            (Dequeued reset ptr (view_of items n))
            (dequeue_smart_ptr P failures freed reset ptr self)
    unfolding dequeue_smart_ptr Spec.dequeue
    smart_ptr-at reset ptr [] n h =
        let s = view_of [] n in
        let ((done, x, self'), run, after) = dequeue_unsafe_refines al 0 null self s h in
        (
          (false, ptr, [], self'),
          rw (dequeue-agree al freed self failures 0 null s h, run, after.0) refl,
          (refl, refl, after.2),
        )
    smart_ptr-at reset ptr (y ∷ ys) n h =
        let s = view_of (y ∷ ys) n in
        let ((done, x, self'), run, after) = dequeue_unsafe_refines al 0 null self s h in
        (
          (true, (reset y ptr).0, (reset y ptr).1, self'),
          rw (dequeue-agree al freed self failures 0 null s h, run, after.0, after.1) refl,
          (refl, refl, after.2),
        )

    scoped_ptr-at :
        (held : ℕ) (items : List ℕ) (n : ℕ)
        → Holds al self (view_of items n)
        → Returns
            (Dequeued overwrite held (view_of items n))
            (dequeue_scoped_ptr P failures freed held self)
    unfolding dequeue_scoped_ptr Spec.dequeue
    scoped_ptr-at held [] n h =
        let s = view_of [] n in
        let ((done, x, self'), run, after) = dequeue_unsafe_refines al 0 held self s h in
        (
          (false, held, [], self'),
          rw (dequeue-agree al freed self failures 0 held s h, run, after.0, after.1) refl,
          (refl, refl, after.2),
        )
    scoped_ptr-at held (y ∷ ys) n h =
        let s = view_of (y ∷ ys) n in
        let ((done, x, self'), run, after) = dequeue_unsafe_refines al 0 held self s h in
        (
          (true, y, [], self'),
          rw (dequeue-agree al freed self failures 0 held s h, run, after.0, after.1) refl,
          (refl, refl, after.2),
        )

    -- The overloads of `dequeue` for smart pointers return, and take the oldest pointer off the fifo,
    -- or leave the fifo and the smart pointer as they are when the fifo is empty. Those for `auto_ptr`
    -- and `shared_ptr` hand the pointer to `reset`, whatever that does: what the smart pointer becomes
    -- and what is deleted is what `reset` says. That for `scoped_ptr` puts the pointer in place of the
    -- address held, which it does not delete. The fifo is well-formed and holds the pointers of `s`.
    pub smart_ptr_dequeues :
        {S : Type 0} (reset : Reset S) (ptr : S) (held : ℕ) (s : View ℕ)
        → Holds al self s
        → Returns (Dequeued reset ptr s) (dequeue_auto_ptr P failures freed reset ptr self)
          × Returns (Dequeued reset ptr s) (dequeue_shared_ptr P failures freed reset ptr self)
          × Returns (Dequeued overwrite held s) (dequeue_scoped_ptr P failures freed held self)
    unfolding dequeue_auto_ptr dequeue_shared_ptr
    smart_ptr_dequeues reset ptr held s h = (
      smart_ptr-at reset ptr s.items s.spare h,
      smart_ptr-at reset ptr s.items s.spare h,
      scoped_ptr-at held s.items s.spare h,
    )
