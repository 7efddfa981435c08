-- ===== src/Stack/Agree.antt =====
-- `push` and `pop`, when no other thread interferes, do what the unsafe operations do, however often
-- their `compare_exchange_weak` fails for no reason.
use boost_lockfree.Prelude.{
  ℕ, ◌+◌, ◌<◌, ◌≡◌, ◌≢◌, refl, sym, ap, ◌∙◌, arith, Bool, true, false, ltb, some, Run, ok, fault,
  out_of_fuel, ◌>>=◌, List, [], ◌∷◌, Bool-cases, inl, inr, ◌⊎◌,
}
use boost_lockfree.TaggedPtr.{TaggedPtrOps}
use boost_lockfree.Memory.{Node, null, Allocator, put}
use boost_lockfree.Memory.Chain.{Cells, Chain, load-ok, store-ok}
use boost_lockfree.Freelist.{Freelist, construct_unsafe, destruct, deallocate_unsafe}
use boost_lockfree.Freelist.Laws.{not_null, known-lt}
use boost_lockfree.Freelist.Nodes.{
  construct_unsafe-cons, construct_unsafe-new, construct_unsafe-none, construct_unsafe-throws,
}
use boost_lockfree.Freelist.Agree.{
  cas_spurious, cas_same, construct-agree, deallocate-agree, put-again,
}
use boost_lockfree.Stack.{Stack, push_loop, push, push_unsafe, pop_round, pop_loop, pop, pop_unsafe}
use boost_lockfree.Stack.Push.{StackInv, Holds}
use boost_lockfree.Stack.Pop.{destruct-eq}
use boost_lockfree.Stack.Spec.{View}

module _ (P : TaggedPtrOps) {A : Type 0} (a : ℕ) (ne : a ≢ null) where
  -- The stack with the node `a` on top.
  abbrev linked : Stack P.Rep A → Node P.Rep A → Stack P.Rep A
  linked self n = record {
    list = record {
      mem = record {
        cells =
            put self.list.mem.cells a (record n { next = P.set_ptr n.next (P.get_ptr self.tos) });
        allocated = self.list.mem.allocated;
      };
      pool = self.list.pool;
    };
    tos = P.make a (P.get_tag self.tos);
  }

  push_loop-linked :
      a < P.ptr_limit
      → (failures : List Bool) (self : Stack P.Rep A) (n : Node P.Rep A)
      → self.list.mem.cells a ≡ some n
      → push_loop P failures a self.tos self ≡ ok (true, linked self n)
  unfolding push_loop
  push_loop-linked small [] self n held = rw (
    load-ok a n self.list.mem ne held,
    store-ok a n self.list.mem ne held,
    cas_same P (P.make a (P.get_tag self.tos)) self.tos,
  )
  push_loop-linked small (false ∷ more) self n held = rw (
    load-ok a n self.list.mem ne held,
    store-ok a n self.list.mem ne held,
    cas_same P (P.make a (P.get_tag self.tos)) self.tos,
  )
  push_loop-linked small (true ∷ more) self n held =
      rw
        (
          load-ok a n self.list.mem ne held,
          store-ok a n self.list.mem ne held,
          cas_spurious P self.tos (P.make a (P.get_tag self.tos)) self.tos,
        )
        (push_loop-linked small more again (record n { next = link }) there
          ∙ ap
              (λ cells. ok (
                true,
                record {
                  list = record {
                    mem = record { cells = cells; allocated = self.list.mem.allocated };
                    pool = self.list.pool;
                  };
                  tos = P.make a (P.get_tag self.tos);
                },
              ))
              (put-again P a ne small self.list.mem.cells n (P.get_ptr self.tos)))
    where
      link : P.Rep
      link = P.set_ptr n.next (P.get_ptr self.tos)

      again : Stack P.Rep A
      again = record {
        list = record {
          mem = record {
            cells = put self.list.mem.cells a (record n { next = link });
            allocated = self.list.mem.allocated;
          };
          pool = self.list.pool;
        };
        tos = self.tos;
      }

      there : again.list.mem.cells a ≡ some (record n { next = link })
      there = ground arith

module _ {P : TaggedPtrOps} {A : Type 0} (al : Allocator P A) where
  -- What `construct` gives the stack: a null pointer, or a node on the heap.
  construct-cases :
      (may_allocate : Bool) (v : A) (self : Stack P.Rep A) (used free : Cells A)
      → StackInv al self used free
      → (construct_unsafe al may_allocate (λ r. r) v self.list ≡ ok (null, self.list))
        ⊎ ((a : ℕ) × (list : Freelist P.Rep A) × (n : Node P.Rep A) × (construct_unsafe al
                may_allocate
                (λ r. r)
                v
                self.list
              ≡ ok (a, list))
            × (a ≢ null)
            × (a < P.ptr_limit)
            × (list.mem.cells a ≡ some n))
        ⊎ (construct_unsafe al may_allocate (λ r. r) v self.list ≡ fault)
  construct-cases may_allocate v self used [] inv = elim (Bool-cases may_allocate) [
    | inl caching ↦ elim (Bool-cases (ltb self.list.mem.allocated al.supply)) [
      | inl left ↦
          let ((a, list), e, got) =
            construct_unsafe-new al may_allocate (λ r. r) v self.list used inv.pool caching
              (ground arith) in
          inr (inl (a, list, _, e, got.ne_null, got.lt_limit, got.holds))
      | inr over ↦ inr (
          inr (
            construct_unsafe-throws al may_allocate (λ r. r) v self.list used inv.pool caching
              (ground arith)))
    ]
    | inr fixed ↦
        inl (construct_unsafe-none al may_allocate (λ r. r) v self.list used inv.pool fixed)
  ]
  construct-cases may_allocate v self used (x ∷ free) inv =
      let ((a, list), e, got) =
        construct_unsafe-cons al may_allocate (λ r. r) v self.list used x free inv.pool in
      inr (inl (a, list, _, e, got.ne_null, got.lt_limit, got.holds))

  -- `push` does what `push_unsafe` does, on every stack that is in order, however
  -- often calls of `compare_exchange_weak` fail for no reason.
  pub push-agree :
      (may_allocate : Bool) (failures got : List Bool) (v : A) (self : Stack P.Rep A) (s : View A)
      → Holds al self s
      → push al may_allocate failures got v self ≡ push_unsafe al may_allocate v self
  unfolding push push_unsafe
  push-agree may_allocate failures got v self s h =
      rw (construct-agree al may_allocate got (λ r. r) v self.list)
        (elim (construct-cases may_allocate v self h.used h.free h.inv) [
          | inl e ↦ rw e
          | inr (inr e) ↦ rw e
          | inr (inl (a, list, n, e, ne, small, held)) ↦
              rw (e, not_null al a ne, load-ok a n list.mem ne held, store-ok a n list.mem ne held)
                (push_loop-linked P a ne small failures (record self { list = list }) n held)
        ])

  module _ (freed : List Bool) (ret : A) (self : Stack P.Rep A) (a : ℕ) (n : Node P.Rep A)
      (top : P.get_ptr self.tos ≡ a) (ne : a ≢ null) (small : a < P.ptr_limit)
      (held : self.list.mem.cells a ≡ some n) where
    -- What a pop comes to when the node `a` is on top.
    abbrev taken : Run (Bool × A × Stack P.Rep A)
    taken = deallocate_unsafe P a self.list >>= λ list. ok (
      true,
      n.value,
      record { list = list; tos = P.make (P.get_ptr n.next) (P.get_tag self.tos + 1) },
    )

    pop_unsafe-taken : pop_unsafe P ret self ≡ taken
    unfolding pop_unsafe
    pop_unsafe-taken =
        rw (top, not_null al a ne, load-ok a n self.list.mem ne held, destruct-eq P a self.list)
          refl

    freed-agree : destruct P freed a self.list ≡ deallocate_unsafe P a self.list
    unfolding destruct
    freed-agree = deallocate-agree P a ne small freed self.list n held

    pop_round-taken :
        (again : P.Rep → Stack P.Rep A → Run (Bool × A × Stack P.Rep A))
        → pop_round P again false freed ret self.tos self ≡ taken
    unfolding pop_round
    pop_round-taken again =
        rw
          (
            top,
            not_null al a ne,
            load-ok a n self.list.mem ne held,
            cas_same P (P.make (P.get_ptr n.next) (P.get_tag self.tos + 1)) self.tos,
            freed-agree,
          )
          refl

    pop_round-again :
        (again : P.Rep → Stack P.Rep A → Run (Bool × A × Stack P.Rep A))
        → pop_round P again true freed ret self.tos self ≡ again self.tos self
    unfolding pop_round
    pop_round-again again =
        rw
          (
            top,
            not_null al a ne,
            load-ok a n self.list.mem ne held,
            cas_spurious P self.tos (P.make (P.get_ptr n.next) (P.get_tag self.tos + 1)) self.tos,
          )
          refl

    pop_loop-taken : (failures : List Bool) → pop_loop P failures freed ret self.tos self ≡ taken
    unfolding pop_loop
    pop_loop-taken [] = pop_round-taken (λ _ _. out_of_fuel)
    pop_loop-taken (false ∷ more) = pop_round-taken (pop_loop P more freed ret)
    pop_loop-taken (true ∷ more) = pop_round-again (pop_loop P more freed ret) ∙ pop_loop-taken more

  pop-at :
      (failures freed : List Bool) (ret : A) (self : Stack P.Rep A) (used free : Cells A)
      → StackInv al self used free
      → pop P failures freed ret self ≡ pop_unsafe P ret self
  unfolding pop pop_loop pop_round pop_unsafe
  pop-at [] freed ret self [] free inv = rw inv.chain
  pop-at (b ∷ more) freed ret self [] free inv = rw inv.chain
  pop-at failures freed ret self ((a, v) ∷ used) free inv = taken_off inv.chain
    where
      taken_off :
          Chain P self.list.mem.cells (P.get_ptr self.tos) ((a, v) ∷ used)
          → pop P failures freed ret self ≡ pop_unsafe P ret self
      taken_off (e, ne, r, held, rest) =
          let small : a < P.ptr_limit =
            known-lt al self.list free ((a, v) ∷ used) inv.pool a (ground arith) in
          pop_loop-taken freed ret self a (record { next = r; value = v }) e ne small held failures
          ∙ sym (pop_unsafe-taken freed ret self a (record { next = r; value = v }) e ne small held)

  -- `pop` does what `pop_unsafe` does, on every stack that is in order, however often calls of
  -- `compare_exchange_weak` fail for no reason.
  pub pop-agree :
      (failures freed : List Bool) (ret : A) (self : Stack P.Rep A) (s : View A)
      → Holds al self s
      → pop P failures freed ret self ≡ pop_unsafe P ret self
  pop-agree failures freed ret self s h = pop-at failures freed ret self h.used h.free h.inv
