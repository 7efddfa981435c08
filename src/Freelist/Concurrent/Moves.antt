-- ===== src/Freelist/Concurrent/Moves.antt =====
-- Every move of a thread on the pool keeps the invariant, and so does every run.
use native.Mathlib.Nat.{mod-eq_of_lt}
use boost_lockfree.Prelude.{
  ℕ, ◌+◌, ◌≤◌, ◌<◌, ◌≡◌, ◌≢◌, refl, sym, ap, subst, ◌∙◌, arith, Bool, true, ◌==◌, List, [], ◌∷◌,
  Bool-cases, ==_iff, inl, inr,
}
use boost_lockfree.TaggedPtr.{TaggedPtrOps}
use boost_lockfree.Memory.{Node, null}
use boost_lockfree.Memory.Links.{update}
use boost_lockfree.Freelist.Concurrent.{
  Place, Event, Shared, Pc, Move, System, Step, Reach, start_at, load_empty, load_pool, read_next,
  take, take_again, take_empty, return_null, allocate_node, hand_out, use_node, call_deallocate,
  reserve_one, load_give, link, give, give_again, pick, start, later,
}
use boost_lockfree.Freelist.Concurrent.Invariant.{
  fresh, ThreadInv, SharedInv, Frame, Frame-ThreadInv,
}
use boost_lockfree.Freelist.Concurrent.Preservation.{
  quiet-SharedInv, quiet-Frame, pool-lt, logged-Frame, same-Frame, Seen-pool, empty-SharedInv,
  grown-SharedInv, grown-Frame, shrunk-SharedInv, shrunk-Frame,
}

module _ (P : TaggedPtrOps) {A : Type 0} where
  -- What a move of thread `i` from `s` to `t` comes to.
  abbrev Kept : ℕ → Shared P.Rep A → Shared P.Rep A → Pc P.Rep → Type 0
  Kept i s t p = (nodes : List ℕ) × SharedInv P t nodes × Frame P i s t × ThreadInv P t i p

  module _ (i : ℕ) (s : Shared P.Rep A) (nodes : List ℕ) (inv : SharedInv P s nodes) where
    same-Kept : (p : Pc P.Rep) → ThreadInv P s i p → Kept i s s p
    same-Kept p k = (nodes, inv, same-Frame P i s nodes inv, k)

    -- A node that is not in the pool moves to another place outside of it.
    move-Kept :
        (n : ℕ) (x : Place) (p : Pc P.Rep)
        → s.place n ≢ Place.pooled
        → x ≢ Place.pooled
        → n ≢ null
        → n < P.ptr_limit
        → ((j : ℕ) → j ≢ i → s.place n ≢ Place.held j)
        → ThreadInv P (record s { place = update s.place n x }) i p
        → Kept i s (record s { place = update s.place n x }) p
    move-Kept n x p off x_off some small mine k =
        let off' : update s.place n x n ≢ Place.pooled = λ e. ground arith in
        (
          nodes,
          quiet-SharedInv P i s nodes inv n s.cells (update s.place n x) off off'
              (λ b ne. (ground arith, refl)) some small,
          quiet-Frame P i s nodes inv n s.cells (update s.place n x) off off'
              (λ b ne. (ground arith, refl)) some small mine,
          k,
        )

    -- A write to a node that is not in the pool.
    write-Kept :
        (n : ℕ) (node : Node P.Rep A) (p : Pc P.Rep)
        → s.place n ≢ Place.pooled
        → s.place n ≢ Place.outside
        → ((j : ℕ) → j ≢ i → s.place n ≢ Place.held j)
        → ThreadInv P (record s { cells = update s.cells n node }) i p
        → Kept i s (record s { cells = update s.cells n node }) p
    write-Kept n node p off known mine k =
        let some : n ≢ null = λ e. ground (arith, inv.null_outside) in
        (
          nodes,
          quiet-SharedInv P i s nodes inv n (update s.cells n node) s.place off off
              (λ b ne. (refl, ground arith)) some (inv.lt_limit n known),
          quiet-Frame P i s nodes inv n (update s.cells n node) s.place off off
              (λ b ne. (refl, ground arith)) some (inv.lt_limit n known) mine,
          k,
        )

    inside-some : (n : ℕ) → s.place n ≢ Place.outside → n ≢ null
    inside-some n known e = known (subst (λ x. s.place x ≡ Place.outside) (sym e) inv.null_outside)

  take-Kept :
      (i : ℕ) (s : Shared P.Rep A) (nodes : List ℕ) (q : ℕ)
      → SharedInv P s nodes
      → ThreadInv P s i (Pc.unlinking s.pool q)
      → s.takes + 1 < P.tag_limit
      → Kept i s
          (record s {
            pool = P.make q (P.get_tag s.pool + 1);
            place = update s.place (P.get_ptr s.pool) (Place.held i);
            takes = s.takes + 1;
            log = Event.taken (P.get_ptr s.pool) ∷ s.log;
          })
          (Pc.returned (P.get_ptr s.pool))
  take-Kept i s [] q inv k room = absurd (k.0.ne_null inv.links)
  take-Kept i s (a ∷ rest) q inv k room =
      rw (k.1 inv.tag, inv.links.0)
        (
          rest,
          shrunk-SharedInv P i s a rest inv room,
          shrunk-Frame P i s a rest inv room,
          ground arith,
        )

  Move-Kept :
      (may_allocate : Bool) (i : ℕ) (s t : Shared P.Rep A) (p p' : Pc P.Rep) (nodes : List ℕ)
      → Move P may_allocate i s p t p'
      → SharedInv P s nodes
      → ThreadInv P s i p
      → t.takes < P.tag_limit
      → Kept i s t p'
  Move-Kept may i s t p p' nodes (load_empty e) inv k room =
      (nodes, empty-SharedInv P i s nodes inv e, logged-Frame P i s nodes inv _, tt)
  Move-Kept may i s t p p' nodes (load_pool ne) inv k room =
      same-Kept i s nodes inv (Pc.allocating s.pool) (Seen-pool P i s nodes inv ne)
  Move-Kept may i s t p p' nodes (read_next {old}) inv k room =
      same-Kept i s nodes inv (Pc.unlinking old (P.get_ptr (s.cells (P.get_ptr old)).next))
        (k, λ e. refl)
  Move-Kept may i s t p p' nodes (take {old} {q} found) inv k room =
      rw (← (P.equal_iff s.pool old).0 found) (
        take-Kept i s nodes q inv
          (subst (λ x. ThreadInv P s i (Pc.unlinking x q)) (sym ((P.equal_iff s.pool old).0 found))
            k)
          room)
  Move-Kept may i s t p p' nodes (take_again ne) inv k room =
      same-Kept i s nodes inv (Pc.allocating s.pool) (Seen-pool P i s nodes inv ne)
  Move-Kept may i s t p p' nodes (take_empty e) inv k room =
      (nodes, empty-SharedInv P i s nodes inv e, logged-Frame P i s nodes inv _, tt)
  Move-Kept may i s t p p' nodes (return_null e) inv k room = same-Kept i s nodes inv Pc.idle tt
  Move-Kept may i s t p p' nodes (allocate_node n e new some small) inv k room =
      move-Kept i s nodes inv n (Place.held i) (Pc.returned n) (λ x. ground arith)
        (λ x. ground arith) some small (λ j ne x. ground arith) (ground arith)
  Move-Kept may i s t p p' nodes (hand_out {n}) inv k room =
      let known : s.place n ≢ Place.outside = λ x. ground arith in
      move-Kept i s nodes inv n Place.out Pc.idle (λ x. ground arith) (λ x. ground arith)
        (inside-some i s nodes inv n known) (inv.lt_limit n known) (λ j ne x. ground arith) tt
  Move-Kept may i s t p p' nodes (use_node n node e) inv k room =
      write-Kept i s nodes inv n node Pc.idle (λ x. ground arith) (λ x. ground arith)
        (λ j ne x. ground arith) tt
  Move-Kept may i s t p p' nodes (call_deallocate n e) inv k room =
      let known : s.place n ≢ Place.outside = λ x. ground arith in
      move-Kept i s nodes inv n (Place.held i) (Pc.giving n) (λ x. ground arith) (λ x. ground arith)
        (inside-some i s nodes inv n known) (inv.lt_limit n known) (λ j ne x. ground arith)
        (ground arith)
  Move-Kept may i s t p p' nodes (reserve_one n new some small) inv k room =
      move-Kept i s nodes inv n (Place.held i) (Pc.giving n) (λ x. ground arith) (λ x. ground arith)
        some small (λ j ne x. ground arith) (ground arith)
  Move-Kept may i s t p p' nodes (load_give {n}) inv k room =
      same-Kept i s nodes inv (Pc.deallocating n s.pool) (k, pool-lt P i s nodes inv)
  Move-Kept may i s t p p' nodes (link {n} {old}) inv k room =
      let r = P.set_ptr (s.cells n).next (P.get_ptr old) in
      let here : (n == n) ≡ true = ground arith in
      write-Kept i s nodes inv n (record { next = r; value = (s.cells n).value }) (Pc.linked n old)
        (λ x. ground (arith, k.0)) (λ x. ground (arith, k.0)) (λ j ne x. ground (arith, k.0))
        (k.0, rw here (P.get_ptr-set_ptr (s.cells n).next (P.get_ptr old) k.1))
  Move-Kept may i s t p p' nodes (give {n} {old} found) inv k room =
      let to_top = k.1 ∙ ap P.get_ptr (sym ((P.equal_iff s.pool old).0 found)) in
      rw (← (P.equal_iff s.pool old).0 found) (
        n ∷ nodes,
        grown-SharedInv P i s nodes inv n k.0 to_top room,
        grown-Frame P i s nodes inv n k.0 to_top room,
        tt,
      )
  Move-Kept may i s t p p' nodes (give_again {n}) inv k room =
      same-Kept i s nodes inv (Pc.deallocating n s.pool) (k.0, pool-lt P i s nodes inv)

module _ (P : TaggedPtrOps) {A : Type 0} (may_allocate : Bool) (cells : ℕ → Node P.Rep A) where
  -- The invariant of the pool and of every thread.
  abbrev pub Inv : System P.Rep A → Type 0
  Inv s =
      (nodes : List ℕ) × SharedInv P s.shared nodes × ((j : ℕ) → ThreadInv P s.shared j (s.pc j))

  start-Inv : 0 < P.tag_limit → Inv (start_at P may_allocate cells)
  start-Inv room = (
    [],
    record {
      links = P.get_ptr-make null 0 P.some_limit;
      in_pool = λ b h. absurd (omega (arith, h));
      all_in = λ b h. ground arith;
      once = λ b. omega arith;
      replays = fresh;
      null_outside = refl;
      lt_limit = λ b h. absurd (h refl);
      tag = P.get_tag-make null 0 P.some_limit ∙ mod-eq_of_lt (omega arith);
    },
    λ j. tt,
  )

  Move-monotone :
      {i : ℕ} {s t : Shared P.Rep A} {p p' : Pc P.Rep}
      → Move P may_allocate i s p t p'
      → s.takes ≤ t.takes
  Move-monotone (take e) = omega arith
  Move-monotone m = omega arith

  Step-monotone : {s t : System P.Rep A} → Step P may_allocate s t → s.shared.takes ≤ t.shared.takes
  Step-monotone (pick i m) = Move-monotone m

  Step-Inv :
      (s t : System P.Rep A)
      → Step P may_allocate s t
      → Inv s
      → t.shared.takes < P.tag_limit
      → Inv t
  Step-Inv s t (pick i {m} {p} move) (nodes, inv, threads) room =
      let (nodes', inv', frame, mine) =
        Move-Kept P may_allocate i s.shared m (s.pc i) p nodes move inv (threads i) room in
      (
        nodes',
        inv',
        λ j. elim (Bool-cases (j == i)) [
          | inl e ↦ rw e (subst (λ k. ThreadInv P m k p) (sym ((==_iff j i).0 e)) mine)
          | inr e ↦ rw e (Frame-ThreadInv P frame j (λ same. ground arith) (s.pc j) (threads j))
        ],
      )

  pub Reach-Inv :
      (s : System P.Rep A) → Reach P may_allocate cells s → s.shared.takes < P.tag_limit → Inv s
  Reach-Inv s start room = start-Inv room
  Reach-Inv s (later {s = r} before step) room =
      Step-Inv r s step (Reach-Inv r before (omega (arith, Step-monotone step))) room
