-- ===== src/Fifo/Concurrent/Runs.antt =====
-- Every run of the threads on the fifo keeps the invariant.
use native.Mathlib.Nat.{mod-eq_of_lt}
use boost_lockfree.Prelude.{
  ℕ, ◌≤◌, ◌<◌, ◌≡◌, ◌≢◌, refl, sym, subst, ◌∙◌, arith, Bool, true, false, ◌==◌, List, [],
  Bool-cases, ==_iff, inl, inr,
}
use boost_lockfree.TaggedPtr.{TaggedPtrOps}
use boost_lockfree.Memory.{Node, null}
use boost_lockfree.Fifo.Concurrent.{
  Shared, Pc, Move, System, Step, Reach, start_at, pick, start, later, construct, link, help, swing,
  advance_tail, dequeue_done,
}
use boost_lockfree.Fifo.Concurrent.Invariant.{fresh, ThreadInv, SharedInv}
use boost_lockfree.Fifo.Concurrent.Frame.{Frame-ThreadInv}
use boost_lockfree.Fifo.Concurrent.Preservation.{Window}
use boost_lockfree.Fifo.Concurrent.Moves.{Move-Kept}

-- A pool and a dummy node `d` outside of it, at addresses that a tagged pointer can hold, without null.
pub record IsPool (P : TaggedPtrOps) (pool : ℕ → Bool) (d : ℕ) : Type 0 where
  pub null_out : pool null ≡ false
  pub d-ne_null : d ≢ null
  pub d-lt : d < P.ptr_limit
  pub small : (b : ℕ) → pool b ≡ true → b < P.ptr_limit

module _ (P : TaggedPtrOps) {A : Type 0} (pool : ℕ → Bool) (d : ℕ) (cells : ℕ → Node P.Rep A)
    (ok : IsPool P pool d) where
  -- The invariant of the fifo and of every thread.
  abbrev pub Inv : System P.Rep A → Type 0
  Inv s =
      (d : ℕ) × (nodes : List ℕ) × SharedInv P cells s.shared d nodes
      × ((j : ℕ) → ThreadInv P s.shared j (s.pc j))

  start-Inv : 0 < P.tag_limit → Inv (start_at P pool d cells)
  start-Inv room =
      let here : (d == d) ≡ true = ground arith in
      let ptr : (k : ℕ) → P.get_ptr (P.make d k) ≡ d = λ k. P.get_ptr-make d k ok.d-lt in
      let tag : P.get_tag (P.make d 0) ≡ 0 =
        P.get_tag-make d 0 ok.d-lt ∙ mod-eq_of_lt (omega arith) in
      let tag' : P.get_tag (P.make null 0) ≡ 0 =
        P.get_tag-make null 0 P.some_limit ∙ mod-eq_of_lt (omega arith) in
      (
        d,
        [],
        record {
          links = (ptr 0, ok.d-ne_null, rw here (P.get_ptr-make null 0 P.some_limit));
          in_queue = λ b h. ground arith;
          all_in = λ b h. ground arith;
          once = λ b. ground arith;
          tail_in = rw (ptr 0, here) refl;
          lag = λ ne. absurd (ne (rw (ptr 0, here) (P.get_ptr-make null 0 P.some_limit)));
          replays = fresh;
          null_outside = ground (arith, ok.null_out, ok.d-ne_null);
          lt_limit = λ b h. ground (arith, ok.d-lt, ok.small b);
          head_tag = omega (arith, tag);
          tail_tag = omega (arith, tag);
          next_tag = λ b. ground (arith, tag');
        },
        λ j. tt,
      )

  Move-monotone :
      {i : ℕ} {s t : Shared P.Rep A} {p p' : Pc P.Rep A} → Move P i s p t p' → s.ticks ≤ t.ticks
  Move-monotone (construct v n e) = omega arith
  Move-monotone (link e found) = omega arith
  Move-monotone (help ne found) = omega arith
  Move-monotone (swing found) = omega arith
  Move-monotone (advance_tail e ne found) = omega arith
  Move-monotone (dequeue_done found) = omega arith
  Move-monotone m = omega arith

  Step-monotone : {s t : System P.Rep A} → Step P s t → s.shared.ticks ≤ t.shared.ticks
  Step-monotone (pick i m) = Move-monotone m

  Step-Inv : (s t : System P.Rep A) → Step P s t → Inv s → Window P cells t.shared → Inv t
  Step-Inv s t (pick i {m} {p} move) (at, nodes, inv, threads) room =
      let (at', nodes', inv', frame, mine) =
        Move-Kept P cells i s.shared m (s.pc i) p at nodes move inv (threads i) room in
      (
        at',
        nodes',
        inv',
        λ j. elim (Bool-cases (j == i)) [
          | inl e ↦ rw e (subst (λ k. ThreadInv P m k p) (sym ((==_iff j i).0 e)) mine)
          | inr e ↦ rw e (Frame-ThreadInv P frame j (λ same. ground arith) (s.pc j) (threads j))
        ],
      )

  pub Reach-Inv : (s : System P.Rep A) → Reach P pool d cells s → Window P cells s.shared → Inv s
  Reach-Inv s start room = start-Inv (omega (arith, room d))
  Reach-Inv s (later {s = r} before step) room =
      Step-Inv r s step (Reach-Inv r before (λ b. omega (arith, room b, Step-monotone step))) room
