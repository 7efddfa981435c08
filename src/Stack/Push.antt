-- ===== src/Stack/Push.antt =====
-- `push_unsafe` implements the push of the specification.
use boost_lockfree.Prelude.{
  ℕ, ◌+◌, ◌≤◌, ◌<◌, ◌≡◌, refl, arith, Bool, true, false, ok, [], ◌∷◌, length, Returns, Bool-cases,
  inl, inr,
}
use boost_lockfree.TaggedPtr.{TaggedPtrOps}
use boost_lockfree.Memory.{Node, null, Allocator, put}
use boost_lockfree.Memory.Chain.{Cells, values, Chain, Chain-lt, Segment-frame, load-ok, store-ok}
use boost_lockfree.Freelist.{Freelist, construct_unsafe}
use boost_lockfree.Freelist.Laws.{PoolInv, not_null, known-lt}
use boost_lockfree.Freelist.Nodes.{
  Constructed, construct_unsafe-cons, construct_unsafe-new, construct_unsafe-none,
}
use boost_lockfree.Stack.{Stack, push_unsafe}
use boost_lockfree.Stack.Spec
use boost_lockfree.Stack.Spec.{View}

module _ {P : TaggedPtrOps} {A : Type 0} (al : Allocator P A) where
  -- The stack is the chain `used` from `tos`, and the pool the chain `free`; they share no node.
  pub record StackInv (self : Stack P.Rep A) (used free : Cells A) : Type 0 where
    pub chain : Chain P self.list.mem.cells (P.get_ptr self.tos) used
    pub pool : PoolInv al self.list free used

  -- The stack holds what the specification says.
  pub record Holds (self : Stack P.Rep A) (s : View A) : Type 0 where
    pub used : Cells A
    pub free : Cells A
    pub inv : StackInv self used free
    pub view : s ≡ record { items = values used; spare = length free }

  -- The outcome of a push, as the specification has it; at most one node is allocated.
  abbrev pub Pushed : Bool → A → View A → Stack P.Rep A → Bool × Stack P.Rep A → Type 0
  Pushed may_allocate v s self out =
      (out.0 ≡ (Spec.push may_allocate v s).0)
      × Holds out.1 (Spec.push may_allocate v s).1
      × (out.1.list.mem.allocated ≤ self.list.mem.allocated + 1)

  module _ (may_allocate : Bool) (v : A) (self : Stack P.Rep A) (used : Cells A) where
    -- Linking a node that the pool has constructed.
    push-Constructed :
        (free' : Cells A) (a : ℕ) (list : Freelist P.Rep A)
        → Chain P self.list.mem.cells (P.get_ptr self.tos) used
        → P.get_ptr self.tos < P.ptr_limit
        → construct_unsafe al may_allocate (λ r. r) v self.list ≡ ok (a, list)
        → Constructed al (λ r. r) v self.list free' used a list
        → Returns
            (λ (done, self').
              (done ≡ true)
              × StackInv self' ((a, v) ∷ used) free'
              × (self'.list.mem.allocated ≤ self.list.mem.allocated + 1))
            (push_unsafe al may_allocate v self)
    unfolding push_unsafe
    push-Constructed free' a list chain small e got = (
      (true, pushed),
      rw
          (
            e,
            not_null al a got.ne_null,
            load-ok a node list.mem got.ne_null got.holds,
            store-ok a node list.mem got.ne_null got.holds,
          )
          refl,
      (
        refl,
        record {
          chain = (
            P.get_ptr-make a (P.get_tag self.tos) got.lt_limit,
            got.ne_null,
            linked.next,
            ground arith,
            rw (P.get_ptr-set_ptr got.link (P.get_ptr self.tos) small) (
                Segment-frame P self.list.mem.cells pushed.list.mem.cells null (P.get_ptr self.tos)
                  used chain (λ b there. ground (arith, got.same b, got.unowned))),
          );
          pool = record {
            chain =
                Segment-frame P list.mem.cells pushed.list.mem.cells null (P.get_ptr list.pool)
                  free' got.inv.chain (λ b there. ground (arith, got.inv.apart a));
            apart = got.inv.apart;
            known = got.inv.known;
            within = got.inv.within;
          };
        },
        got.grown,
      ),
    )
      where
        node : Node P.Rep A
        node = record { next = got.link; value = v }

        linked : Node P.Rep A
        linked = record { next = P.set_ptr got.link (P.get_ptr self.tos); value = v }

        pushed : Stack P.Rep A
        pushed = record {
          list = record {
            mem = record { cells = put list.mem.cells a linked; allocated = list.mem.allocated };
            pool = list.pool;
          };
          tos = P.make a (P.get_tag self.tos);
        }

    tos-lt : (free : Cells A) → StackInv self used free → P.get_ptr self.tos < P.ptr_limit
    tos-lt free inv =
        Chain-lt P self.list.mem.cells (P.get_ptr self.tos) P.ptr_limit used inv.chain P.some_limit
          (λ a there. known-lt al self.list free used inv.pool a (omega arith))

    Pushed-of :
        (s s' : View A) (d : Bool) (out : Bool × Stack P.Rep A)
        → Spec.push may_allocate v s ≡ (d, s')
        → out.0 ≡ d
        → Holds out.1 s'
        → out.1.list.mem.allocated ≤ self.list.mem.allocated + 1
        → Pushed may_allocate v s self out
    Pushed-of s s' d out e answer holds grown = (rw e answer, rw e holds, grown)

    abbrev view_of : Cells A → View A
    view_of free = record { items = values used; spare = length free }

    spec-new :
        may_allocate ≡ true
        → Spec.push may_allocate v (view_of [])
          ≡ (true, record { items = v ∷ values used; spare = 0 })
    unfolding Spec.push
    spec-new caching = rw caching

    spec-none : may_allocate ≡ false → Spec.push may_allocate v (view_of []) ≡ (false, view_of [])
    unfolding Spec.push
    spec-none fixed = rw fixed

    spec-cons :
        (x : ℕ × A) (free : Cells A)
        → Spec.push may_allocate v (view_of (x ∷ free))
          ≡ (true, record { items = v ∷ values used; spare = length free })
    unfolding Spec.push
    spec-cons x free = ground arith

    push-none :
        StackInv self used []
        → may_allocate ≡ false
        → push_unsafe al may_allocate v self ≡ ok (false, self)
    unfolding push_unsafe
    push-none inv fixed =
        rw (construct_unsafe-none al may_allocate (λ r. r) v self.list used inv.pool fixed)

    push-at :
        (free : Cells A)
        → StackInv self used free
        → self.list.mem.allocated < al.supply
        → Returns (Pushed may_allocate v (view_of free) self) (push_unsafe al may_allocate v self)
    push-at [] inv left = elim (Bool-cases may_allocate) [
      | inl caching ↦
          let ((a, list), e, got) =
            construct_unsafe-new al may_allocate (λ r. r) v self.list used inv.pool caching left in
          let (out, run, after) = push-Constructed [] a list inv.chain (tos-lt [] inv) e got in
          (
            out,
            run,
            Pushed-of _ _ true out (spec-new caching) after.0
                (record { used = (a, v) ∷ used; free = []; inv = after.1; view = refl }) after.2,
          )
      | inr fixed ↦ (
        (false, self),
        push-none inv fixed,
        Pushed-of _ _ false (false, self) (spec-none fixed) refl
            (record { used = used; free = []; inv = inv; view = refl }) (omega arith),
      )
    ]
    push-at (x ∷ free) inv left =
        let ((a, list), e, got) =
          construct_unsafe-cons al may_allocate (λ r. r) v self.list used x free inv.pool in
        let (out, run, after) =
          push-Constructed free a list inv.chain (tos-lt (x ∷ free) inv) e got in
        (
          out,
          run,
          Pushed-of _ _ true out (spec-cons x free) after.0
              (record { used = (a, v) ∷ used; free = free; inv = after.1; view = refl }) after.2,
        )

  -- `push_unsafe` does what the specification says: with a free node, or when it may allocate, it
  -- puts the value on top and returns true, else it returns false and the stack holds what it held.
  -- The allocator has storage left.
  pub push_unsafe_refines :
      (may_allocate : Bool) (v : A) (self : Stack P.Rep A) (s : View A)
      → Holds self s
      → self.list.mem.allocated < al.supply
      → Returns (Pushed may_allocate v s self) (push_unsafe al may_allocate v self)
  push_unsafe_refines may_allocate v self s h left =
      rw h.view (push-at may_allocate v self h.used h.free h.inv left)
