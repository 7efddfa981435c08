-- ===== src/Fifo/Concurrent/Preservation.antt =====
-- What each kind of write to the shared state of the fifo keeps.
use native.Mathlib.Nat.{mod-eq_of_lt}
use boost_lockfree.Prelude.{
  ℕ, ◌+◌, ◌≤◌, ◌<◌, ◌≡◌, ◌≢◌, inl, inr, refl, sym, ap, ◌∙◌, arith, false, List, ◌∷◌, ◌==◌,
}
use boost_lockfree.TaggedPtr.{TaggedPtrOps}
use boost_lockfree.Memory.{Node, null}
use boost_lockfree.Memory.Links.{update, occurrences, Links-frame, contents-frame, Links-next}
use boost_lockfree.Fifo.Concurrent.{Place, Shared, move_tail}
use boost_lockfree.Fifo.Concurrent.Invariant.{SharedInv, Frame}

module _ (P : TaggedPtrOps) {A : Type 0} (cells : ℕ → Node P.Rep A) where
  -- The tag of each link at the start and the number of writes that took a new tag since add up to
  -- less than there are tags.
  abbrev pub Window : Shared P.Rep A → Type 0
  Window t = (b : ℕ) → P.get_tag (cells b).next + t.ticks < P.tag_limit

  module _ (i : ℕ) (s : Shared P.Rep A) (d : ℕ) (nodes : List ℕ)
      (inv : SharedInv P cells s d nodes) where
    pub dummy_in : s.place d ≡ Place.queued
    dummy_in = inv.in_queue d (ground arith)

    pub head_in : s.place (P.get_ptr s.head) ≡ Place.queued
    head_in = rw inv.links.0 dummy_in

    pub queued-lt : (b : ℕ) → s.place b ≡ Place.queued → b < P.ptr_limit
    queued-lt b e = inv.lt_limit b (λ x. ground arith)

    pub same-Frame : Frame P i s s
    same-Frame = record {
      others = λ b j ne h. (h, refl);
      head_moves = inl refl;
      tail_moves = inl refl;
      head_in = head_in;
      tail_in = inv.tail_in;
      tail_in' = inv.tail_in;
      stays = λ e b h. h;
      value = λ b h. refl;
      next = λ b h h' ne. refl;
      tag = λ b. omega arith;
      last = λ b h e x. (h, e, λ y. y);
      apart = λ e ne. ne;
    }

    -- The node after one in the queue is in the queue, and not the dummy.
    pub next-In :
        (b : ℕ)
        → s.place b ≡ Place.queued
        → P.get_ptr (s.cells b).next ≢ null
        → 0 < occurrences (P.get_ptr (s.cells b).next) nodes
    next-In b h ne = Links-next P s.cells (P.get_ptr s.head) b d nodes inv.links (inv.all_in b h) ne

    -- Thread `i` writes to a node that is not in the queue and that no other thread holds.
    module _ (n : ℕ) (node : Node P.Rep A) (x : Place) (ticks : ℕ)
        (not_on : s.place n ≢ Place.queued) (known : s.place n ≢ Place.outside)
        (x_off : x ≢ Place.queued) (x_in : x ≢ Place.outside) (later : s.ticks ≤ ticks)
        (tag : P.get_tag (s.cells n).next ≤ P.get_tag node.next)
        (tag' : P.get_tag node.next ≤ P.get_tag (cells n).next + ticks) where
      abbrev pub written : Shared P.Rep A
      written = record s {
        cells = update s.cells n node;
        place = update s.place n x;
        ticks = ticks;
      }

      keeps : (b : ℕ) → s.place b ≡ Place.queued → (b == n) ≡ false
      keeps b h = ground arith

      cell-keeps : (b : ℕ) → s.place b ≡ Place.queued → update s.cells n node b ≡ s.cells b
      cell-keeps b h = rw (keeps b h) refl

      place-keeps : (b : ℕ) → s.place b ≡ Place.queued → update s.place n x b ≡ Place.queued
      place-keeps b h = rw (keeps b h) h

      tail-keeps :
          P.get_ptr (update s.cells n node (P.get_ptr s.tail)).next
          ≡ P.get_ptr (s.cells (P.get_ptr s.tail)).next
      tail-keeps =
          ap (λ (c : Node P.Rep A). P.get_ptr c.next) (cell-keeps (P.get_ptr s.tail) inv.tail_in)

      lag-keeps :
          P.get_ptr (s.cells (P.get_ptr s.tail)).next ≢ null
          → P.get_ptr
              (update s.cells n node
                (P.get_ptr (update s.cells n node (P.get_ptr s.tail)).next)).next
            ≡ null
      lag-keeps ne =
          let after = P.get_ptr (s.cells (P.get_ptr s.tail)).next in
          let there : s.place after ≡ Place.queued =
            inv.in_queue after (omega (arith, next-In (P.get_ptr s.tail) inv.tail_in ne)) in
          ap (λ (y : ℕ). P.get_ptr (update s.cells n node y).next) tail-keeps
          ∙ ap (λ (c : Node P.Rep A). P.get_ptr c.next) (cell-keeps after there)
          ∙ inv.lag ne

      pub written-SharedInv : SharedInv P cells written d nodes
      written-SharedInv = record {
        links =
            Links-frame P s.cells (update s.cells n node) (P.get_ptr s.head) (d ∷ nodes) inv.links
              (λ b h. cell-keeps b (inv.in_queue b h));
        in_queue = λ b h. place-keeps b (inv.in_queue b h);
        all_in = λ b h. inv.all_in b (ground arith);
        once = inv.once;
        tail_in = place-keeps (P.get_ptr s.tail) inv.tail_in;
        lag = λ ne. lag-keeps (λ e. ne (tail-keeps ∙ e));
        replays =
            rw
              (contents-frame P s.cells (update s.cells n node) nodes (λ b h.
                ap (λ (c : Node P.Rep A). c.value)
                  (cell-keeps b (inv.in_queue b (omega (arith, h))))))
              inv.replays;
        null_outside = ground (arith, inv.null_outside);
        lt_limit = λ b h. inv.lt_limit b (λ e. ground arith);
        head_tag = omega (arith, inv.head_tag, later);
        tail_tag = omega (arith, inv.tail_tag, later);
        next_tag = λ b. ground (arith, inv.next_tag b);
      }

      pub written-Frame : ((j : ℕ) → j ≢ i → s.place n ≢ Place.held j) → Frame P i s written
      written-Frame mine = record {
        others = λ b j ne h. ground (arith, mine j ne);
        head_moves = inl refl;
        tail_moves = inl refl;
        head_in = head_in;
        tail_in = inv.tail_in;
        tail_in' = place-keeps (P.get_ptr s.tail) inv.tail_in;
        stays = λ e b h. place-keeps b h;
        value = λ b h. ap (λ (c : Node P.Rep A). c.value) (cell-keeps b h);
        next = λ b h h' ne. ap (λ (c : Node P.Rep A). P.get_ptr c.next) (cell-keeps b h);
        tag = λ b. ground arith;
        last = λ b h e y. (place-keeps b h, rw (cell-keeps b h) e, λ z. z);
        apart = λ e ne. ne;
      }

    -- The tail moves to the node after its own.
    module _ (p : ℕ) (leads : P.get_ptr (s.cells (P.get_ptr s.tail)).next ≡ p) (ne_null : p ≢ null)
        (there : 0 < occurrences p nodes) (room : Window (move_tail P s.tail p s)) where
      tail-tag : P.get_tag (P.make p (P.get_tag s.tail + 1)) ≡ P.get_tag s.tail + 1
      tail-tag =
          P.get_tag-make p (P.get_tag s.tail + 1)
            (queued-lt p (inv.in_queue p (omega (arith, there))))
          ∙ mod-eq_of_lt (omega (arith, room p, inv.tail_tag))

      tail-ptr : P.get_ptr (P.make p (P.get_tag s.tail + 1)) ≡ p
      tail-ptr =
          P.get_ptr-make p (P.get_tag s.tail + 1)
            (queued-lt p (inv.in_queue p (omega (arith, there))))

      new_tail-In : s.place (P.get_ptr (P.make p (P.get_tag s.tail + 1))) ≡ Place.queued
      new_tail-In = rw tail-ptr (inv.in_queue p (omega (arith, there)))

      new_tail-last : P.get_ptr (s.cells (P.get_ptr (P.make p (P.get_tag s.tail + 1)))).next ≡ null
      new_tail-last =
          ap (λ (y : ℕ). P.get_ptr (s.cells y).next) (tail-ptr ∙ sym leads)
          ∙ inv.lag (λ e. ne_null (sym leads ∙ e))

      pub move_tail-SharedInv : SharedInv P cells (move_tail P s.tail p s) d nodes
      move_tail-SharedInv = record {
        links = inv.links;
        in_queue = inv.in_queue;
        all_in = inv.all_in;
        once = inv.once;
        tail_in = new_tail-In;
        lag = λ ne. absurd (ne new_tail-last);
        replays = inv.replays;
        null_outside = inv.null_outside;
        lt_limit = inv.lt_limit;
        head_tag = omega (arith, inv.head_tag);
        tail_tag = omega (arith, inv.tail_tag, tail-tag);
        next_tag = λ b. omega (arith, inv.next_tag b);
      }

      not_dummy : p ≢ d
      not_dummy e = ground (arith, inv.once p, there)

      pub move_tail-Frame : Frame P i s (move_tail P s.tail p s)
      move_tail-Frame = record {
        others = λ b j ne h. (h, refl);
        head_moves = inl refl;
        tail_moves = inr (omega (arith, tail-tag));
        head_in = head_in;
        tail_in = inv.tail_in;
        tail_in' = new_tail-In;
        stays = λ e b h. h;
        value = λ b h. refl;
        next = λ b h h' ne. refl;
        tag = λ b. omega arith;
        last = λ b h e x. (
          h,
          e,
          λ at. absurd (ne_null (sym leads ∙ ap (λ (y : ℕ). P.get_ptr (s.cells y).next) at ∙ e)),
        );
        apart = λ e ne same. not_dummy (sym tail-ptr ∙ same ∙ inv.links.0);
      }
