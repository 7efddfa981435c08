-- ===== src/Fifo/Concurrent/Growth.antt =====
-- A node enters the queue at its end, or leaves it at its front.
use native.Mathlib.Nat.{mod-eq_of_lt}
use boost_lockfree.Prelude.{
  ℕ, ◌+◌, ◌<◌, ◌≡◌, ◌==◌, true, false, ◌≢◌, inl, inr, refl, sym, ap, ◌∙◌, arith, List, [], ◌∷◌,
  ◌++◌,
}
use boost_lockfree.TaggedPtr.{TaggedPtrOps}
use boost_lockfree.Memory.{Node, null}
use boost_lockfree.Memory.Links.{
  update, occurrences, occurrences-append, set_link, contents-frame, contents-append, Links-append,
}
use boost_lockfree.Fifo.Concurrent.{Place, Event, Shared, link_node}
use boost_lockfree.Fifo.Concurrent.Invariant.{enqueue, dequeue, SharedInv, Frame}
use boost_lockfree.Fifo.Concurrent.Preservation.{Window, head_in, queued-lt}

module _ (P : TaggedPtrOps) {A : Type 0} (cells : ℕ → Node P.Rep A) where
  -- Thread `i` links its node `n` to the last node of the queue, of which `next` has the tag.
  module _ (i : ℕ) (s : Shared P.Rep A) (d : ℕ) (nodes : List ℕ) (inv : SharedInv P cells s d nodes)
      (n : ℕ) (tail next : P.Rep) (mine : s.place n ≡ Place.held i)
      (ends : P.get_ptr (s.cells n).next ≡ null) (t_in : s.place (P.get_ptr tail) ≡ Place.queued)
      (t_last : P.get_ptr (s.cells (P.get_ptr tail)).next ≡ null)
      (t_tag : P.get_tag (s.cells (P.get_ptr tail)).next ≡ P.get_tag next)
      (tail_here : P.get_ptr s.tail ≡ P.get_ptr tail)
      (room : Window P cells (link_node P n tail next s)) where
    n-lt : n < P.ptr_limit
    n-lt = inv.lt_limit n (λ x. ground arith)

    not_there : occurrences n (d ∷ nodes) ≡ 0
    not_there = ground (arith, inv.in_queue n)

    n_off : n ≢ P.get_ptr tail
    n_off e = ground arith

    n_some : n ≢ null
    n_some e = ground (arith, inv.null_outside)

    abbrev link_word : P.Rep
    link_word = P.make n (P.get_tag next + 1)

    link-tag : P.get_tag link_word ≡ P.get_tag next + 1
    link-tag =
        P.get_tag-make n (P.get_tag next + 1) n-lt
        ∙ mod-eq_of_lt (omega (arith, room (P.get_ptr tail), inv.next_tag (P.get_ptr tail), t_tag))

    abbrev cells' : ℕ → Node P.Rep A
    cells' = set_link P (P.get_ptr tail) link_word s.cells

    value-same : (b : ℕ) → (cells' b).value ≡ (s.cells b).value
    value-same b = ground arith

    link-leads : P.get_ptr (cells' (P.get_ptr s.tail)).next ≡ n
    link-leads =
        let here : (P.get_ptr tail == P.get_ptr tail) ≡ true = ground arith in
        ap (λ (y : ℕ). P.get_ptr (cells' y).next) tail_here
        ∙ rw here (P.get_ptr-make n (P.get_tag next + 1) n-lt)

    new_last : P.get_ptr (cells' n).next ≡ null
    new_last = let away : (n == P.get_ptr tail) ≡ false = ground arith in rw away ends

    pub link_node-SharedInv : SharedInv P cells (link_node P n tail next s) d (nodes ++ n ∷ [])
    link_node-SharedInv = record {
      links =
          Links-append P s.cells n (P.get_ptr tail) link_word
            (P.get_ptr-make n (P.get_tag next + 1) n-lt) n_some ends n_off t_last (P.get_ptr s.head)
            (d ∷ nodes) inv.links (inv.all_in (P.get_ptr tail) t_in) not_there;
      in_queue = λ b h. ground (arith, inv.in_queue b, occurrences-append b nodes (n ∷ []));
      all_in = λ b h. ground (arith, inv.all_in b, occurrences-append b nodes (n ∷ []));
      once = λ b. ground (arith, inv.once b, not_there, occurrences-append b nodes (n ∷ []));
      tail_in = ground (arith, inv.tail_in);
      lag = λ ne. ap (λ (y : ℕ). P.get_ptr (cells' y).next) link-leads ∙ new_last;
      replays =
          rw
            (
              contents-append P cells' nodes n,
              value-same n,
              contents-frame P s.cells cells' nodes (λ b h. value-same b),
            )
            (enqueue inv.replays);
      null_outside = ground (arith, inv.null_outside);
      lt_limit = λ b h. inv.lt_limit b (λ e. ground arith);
      head_tag = omega (arith, inv.head_tag);
      tail_tag = omega (arith, inv.tail_tag);
      next_tag = λ b. ground (arith, inv.next_tag b, inv.next_tag (P.get_ptr tail), link-tag);
    }

    pub link_node-Frame : Frame P i s (link_node P n tail next s)
    link_node-Frame = record {
      others = λ b j ne h. ground arith;
      head_moves = inl refl;
      tail_moves = inl refl;
      head_in = head_in P cells i s d nodes inv;
      tail_in = inv.tail_in;
      tail_in' = ground (arith, inv.tail_in);
      stays = λ e b h. ground arith;
      value = λ b h. value-same b;
      next = λ b h h' ne. ground arith;
      tag = λ b. ground (arith, link-tag);
      last = λ b h e x. ground (arith, link-tag);
      apart = λ e ne. ne;
    }

  -- Thread `i` takes the dummy off; the node after it is the new dummy.
  module _ (i : ℕ) (s : Shared P.Rep A) (d q : ℕ) (rest : List ℕ)
      (inv : SharedInv P cells s d (q ∷ rest)) (tail_off : P.get_ptr s.tail ≢ d)
      (room : (b : ℕ) → P.get_tag (cells b).next + (s.ticks + 1) < P.tag_limit) where
    abbrev pub shortened : Shared P.Rep A
    shortened = record s {
      head = P.make q (P.get_tag s.head + 1);
      place = update s.place d (Place.held i);
      ticks = s.ticks + 1;
      log = Event.dequeued (s.cells q).value ∷ s.log;
    }

    d_in : s.place d ≡ Place.queued
    d_in = inv.in_queue d (ground arith)

    q-lt : q < P.ptr_limit
    q-lt = queued-lt P cells i s d (q ∷ rest) inv q (inv.in_queue q (ground arith))

    head-tag : P.get_tag (P.make q (P.get_tag s.head + 1)) ≡ P.get_tag s.head + 1
    head-tag =
        P.get_tag-make q (P.get_tag s.head + 1) q-lt
        ∙ mod-eq_of_lt (omega (arith, room q, inv.head_tag))

    -- The links of the old dummy lead on to the new one.
    leads_on : P.get_ptr (s.cells d).next ≢ null
    leads_on e = inv.links.2.1 (sym inv.links.2.0 ∙ e)

    pub shortened-SharedInv : SharedInv P cells shortened q rest
    shortened-SharedInv = record {
      links =
          rw (P.get_ptr-make q (P.get_tag s.head + 1) q-lt) (refl, inv.links.2.1, inv.links.2.2);
      in_queue = λ b h. ground (arith, inv.in_queue b, inv.once b);
      all_in = λ b h. ground (arith, inv.all_in b);
      once = λ b. ground (arith, inv.once b);
      tail_in = ground (arith, inv.tail_in, tail_off);
      lag = inv.lag;
      replays = dequeue inv.replays;
      null_outside = ground (arith, inv.null_outside, d_in);
      lt_limit = λ b h. inv.lt_limit b (λ e. ground (arith, d_in));
      head_tag = omega (arith, inv.head_tag, head-tag);
      tail_tag = omega (arith, inv.tail_tag);
      next_tag = λ b. omega (arith, inv.next_tag b);
    }

    pub shortened-Frame : Frame P i s shortened
    shortened-Frame = record {
      others = λ b j ne h. ground (arith, d_in);
      head_moves = inr (omega (arith, head-tag));
      tail_moves = inl refl;
      head_in = head_in P cells i s d (q ∷ rest) inv;
      tail_in = inv.tail_in;
      tail_in' = ground (arith, inv.tail_in, tail_off);
      stays = λ e. absurd (omega (arith, head-tag, ap P.get_tag e));
      value = λ b h. refl;
      next = λ b h h' ne. refl;
      tag = λ b. omega arith;
      last = λ b h e x. ground (arith, leads_on);
      apart = λ e. absurd (omega (arith, head-tag, ap P.get_tag e));
    }
