-- ===== src/Stack/Concurrent/Moves.antt =====
-- Every move of a thread keeps the invariant, and so does every run.
use native.Mathlib.Nat.{mod-eq_of_lt}
use boost_lockfree.Prelude.{
  ℕ, ◌+◌, ◌≤◌, ◌<◌, ◌≡◌, ◌≢◌, refl, sym, ap, subst, ◌∙◌, arith, Bool, true, false, ◌==◌, List, [],
  ◌∷◌, Bool-cases, ==_iff, inl, inr,
}
use boost_lockfree.TaggedPtr.{TaggedPtrOps}
use boost_lockfree.Memory.{Node, null}
use boost_lockfree.Memory.Links.{update, set_link}
use boost_lockfree.Stack.Concurrent.{
  Place, Event, Shared, Pc, Move, System, Step, Reach, start_at, refused, construct, load_push,
  link, push_done, push_again, load_empty, load_pop, read_next, pop_done, pop_again, pop_empty,
  fetch, destruct, pick, start, later,
}
use boost_lockfree.Stack.Concurrent.Invariant.{fresh, ThreadInv, SharedInv, Frame, Frame-ThreadInv}
use boost_lockfree.Stack.Concurrent.Preservation.{
  tos-lt, same-Frame, logged-Frame, Seen-tos, empty-SharedInv, written-SharedInv, written-Frame,
  linked-SharedInv, linked-Frame, grown-SharedInv, grown-Frame, shrunk-SharedInv, shrunk-Frame,
}

module _ (P : TaggedPtrOps) {A : Type 0} where
  -- What a move of thread `i` from `s` to `t` comes to.
  abbrev Kept : ℕ → Shared P.Rep A → Shared P.Rep A → Pc P.Rep A → Type 0
  Kept i s t p = (nodes : List ℕ) × SharedInv P t nodes × Frame P i s t × ThreadInv P t i p

  pop_done-Kept :
      (i : ℕ) (s : Shared P.Rep A) (nodes : List ℕ) (q : ℕ)
      → SharedInv P s nodes
      → ThreadInv P s i (Pc.unlinking s.tos q)
      → s.pops + 1 < P.tag_limit
      → Kept i s
          (record s {
            tos = P.make q (P.get_tag s.tos + 1);
            place = update s.place (P.get_ptr s.tos) (Place.held i);
            pops = s.pops + 1;
            log = Event.popped (s.cells (P.get_ptr s.tos)).value ∷ s.log;
          })
          (Pc.taken (P.get_ptr s.tos) (s.cells (P.get_ptr s.tos)).value)
  pop_done-Kept i s [] q inv k room = absurd (k.0.ne_null inv.links)
  pop_done-Kept i s (a ∷ rest) q inv k room =
      rw (k.1 inv.tag, inv.links.0)
        (
          rest,
          shrunk-SharedInv P i s a rest inv room,
          shrunk-Frame P i s a rest inv room,
          (ground arith, refl),
        )

  -- The link leads to the node that was read.
  link-to :
      (i : ℕ) (s : Shared P.Rep A) (n : ℕ) (old : P.Rep)
      → s.place n ≡ Place.held i
      → P.get_ptr old < P.ptr_limit
      → P.get_ptr (set_link P n (P.set_ptr (s.cells n).next (P.get_ptr old)) s.cells n).next
        ≡ P.get_ptr old
  link-to i s n old mine small =
      let here : (n == n) ≡ true = ground arith in
      rw here (P.get_ptr-set_ptr (s.cells n).next (P.get_ptr old) small)

  Move-Kept :
      (i : ℕ) (s t : Shared P.Rep A) (p p' : Pc P.Rep A) (nodes : List ℕ)
      → Move P i s p t p'
      → SharedInv P s nodes
      → ThreadInv P s i p
      → t.pops < P.tag_limit
      → Kept i s t p'
  Move-Kept i s t p p' nodes refused inv k room = (nodes, inv, same-Frame P i s nodes inv, tt)
  Move-Kept i s t p p' nodes (construct v n free) inv k room =
      let node : Node P.Rep A = record { next = (s.cells n).next; value = v } in
      let not_on : s.place n ≢ Place.stacked = λ e. ground arith in
      let known : s.place n ≢ Place.outside = λ e. ground arith in
      (
        nodes,
        written-SharedInv P i s nodes inv n node (Place.held i) not_on known (λ e. ground arith)
            (λ e. ground arith),
        written-Frame P i s nodes inv n node (Place.held i) not_on known (λ e. ground arith)
            (λ e. ground arith) (λ j ne e. ground arith),
        ground arith,
      )
  Move-Kept i s t p p' nodes load_push inv k room =
      (nodes, inv, same-Frame P i s nodes inv, (k, tos-lt P i s nodes inv))
  Move-Kept i s t p p' nodes (link {n} {old}) inv k room =
      let r = P.set_ptr (s.cells n).next (P.get_ptr old) in
      (
        nodes,
        linked-SharedInv P i s nodes inv n r k.0,
        linked-Frame P i s nodes inv n r k.0,
        (k.0, link-to i s n old k.0 k.1),
      )
  Move-Kept i s t p p' nodes (push_done {n} {old} found) inv k room =
      rw (← (P.equal_iff s.tos old).0 found) (
        n ∷ nodes,
        grown-SharedInv P i s nodes inv n k.0
            (k.1 ∙ ap P.get_ptr (sym ((P.equal_iff s.tos old).0 found))) room,
        grown-Frame P i s nodes inv n k.0
            (k.1 ∙ ap P.get_ptr (sym ((P.equal_iff s.tos old).0 found))) room,
        tt,
      )
  Move-Kept i s t p p' nodes push_again inv k room =
      (nodes, inv, same-Frame P i s nodes inv, (k.0, tos-lt P i s nodes inv))
  Move-Kept i s t p p' nodes (load_empty e) inv k room =
      (nodes, empty-SharedInv P i s nodes inv e, logged-Frame P i s nodes inv _, tt)
  Move-Kept i s t p p' nodes (load_pop ne) inv k room =
      (nodes, inv, same-Frame P i s nodes inv, Seen-tos P i s nodes inv ne)
  Move-Kept i s t p p' nodes read_next inv k room =
      (nodes, inv, same-Frame P i s nodes inv, (k, λ e. refl))
  Move-Kept i s t p p' nodes (pop_done {old} {q} found) inv k room =
      rw (← (P.equal_iff s.tos old).0 found) (
        pop_done-Kept i s nodes q inv
          (subst (λ x. ThreadInv P s i (Pc.unlinking x q)) (sym ((P.equal_iff s.tos old).0 found))
            k)
          room)
  Move-Kept i s t p p' nodes (pop_again ne) inv k room =
      (nodes, inv, same-Frame P i s nodes inv, Seen-tos P i s nodes inv ne)
  Move-Kept i s t p p' nodes (pop_empty e) inv k room =
      (nodes, empty-SharedInv P i s nodes inv e, logged-Frame P i s nodes inv _, tt)
  Move-Kept i s t p p' nodes fetch inv k room = (nodes, inv, same-Frame P i s nodes inv, k)
  Move-Kept i s t p p' nodes (destruct {a} {v} {due} r) inv k room =
      let node : Node P.Rep A = record { next = r; value = (s.cells a).value } in
      let not_on : s.place a ≢ Place.stacked = λ e. ground arith in
      let known : s.place a ≢ Place.outside = λ e. ground arith in
      (
        nodes,
        written-SharedInv P i s nodes inv a node Place.free not_on known (λ e. ground arith)
            (λ e. ground arith),
        written-Frame P i s nodes inv a node Place.free not_on known (λ e. ground arith)
            (λ e. ground arith) (λ j ne e. ground arith),
        tt,
      )

module _ (P : TaggedPtrOps) {A : Type 0} (pool : ℕ → Bool) (cells : ℕ → Node P.Rep A)
    (null_out : pool null ≡ false) (small : (b : ℕ) → pool b ≡ true → b < P.ptr_limit) where
  -- The invariant of the stack and of every thread.
  abbrev pub Inv : System P.Rep A → Type 0
  Inv s =
      (nodes : List ℕ) × SharedInv P s.shared nodes × ((j : ℕ) → ThreadInv P s.shared j (s.pc j))

  start-Inv : 0 < P.tag_limit → Inv (start_at P pool cells)
  start-Inv room = (
    [],
    record {
      links = P.get_ptr-make null 0 P.some_limit;
      on_stack = λ b h. absurd (omega (arith, h));
      once = λ b. omega arith;
      replays = fresh;
      null_outside = rw null_out refl;
      lt_limit = λ b h. small b (ground (arith, h));
      tag = P.get_tag-make null 0 P.some_limit ∙ mod-eq_of_lt (omega arith);
    },
    λ j. tt,
  )

  Move-monotone :
      {i : ℕ} {s t : Shared P.Rep A} {p p' : Pc P.Rep A} → Move P i s p t p' → s.pops ≤ t.pops
  Move-monotone (pop_done e) = omega arith
  Move-monotone m = omega arith

  Step-monotone : {s t : System P.Rep A} → Step P s t → s.shared.pops ≤ t.shared.pops
  Step-monotone (pick i m) = Move-monotone m

  Step-Inv : (s t : System P.Rep A) → Step P s t → Inv s → t.shared.pops < P.tag_limit → Inv t
  Step-Inv s t (pick i {m} {p} move) (nodes, inv, threads) room =
      let (nodes', inv', frame, mine) =
        Move-Kept P i s.shared m (s.pc i) p nodes move inv (threads i) room in
      (
        nodes',
        inv',
        λ j. elim (Bool-cases (j == i)) [
          | inl e ↦ rw e (subst (λ k. ThreadInv P m k p) (sym ((==_iff j i).0 e)) mine)
          | inr e ↦ rw e (Frame-ThreadInv P frame j (λ same. ground arith) (s.pc j) (threads j))
        ],
      )

  pub Reach-Inv : (s : System P.Rep A) → Reach P pool cells s → s.shared.pops < P.tag_limit → Inv s
  Reach-Inv s start room = start-Inv room
  Reach-Inv s (later {s = r} before step) room =
      Step-Inv r s step (Reach-Inv r before (omega (arith, Step-monotone step))) room
