-- ===== src/Stack/Concurrent/Preservation.antt =====
-- Every step of a thread keeps the invariant.
use native.Mathlib.Nat.{mod-eq_of_lt}
use boost_lockfree.Prelude.{ℕ, ◌+◌, ◌<◌, ◌≡◌, ◌≢◌, refl, sym, ap, subst, ◌∙◌, arith, List, [], ◌∷◌}
use boost_lockfree.TaggedPtr.{TaggedPtrOps}
use boost_lockfree.Memory.{Node, null}
use boost_lockfree.Memory.Links.{
  update, occurrences, set_link, Links, contents, Links-frame, Links-lt, contents-frame,
}
use boost_lockfree.Stack.Concurrent.{Place, Event, Shared}
use boost_lockfree.Stack.Concurrent.Invariant.{Replays, push, pop, empty, Seen, SharedInv, Frame}

module _ (P : TaggedPtrOps) {A : Type 0} where
  module _ (i : ℕ) (s : Shared P.Rep A) (nodes : List ℕ) (inv : SharedInv P s nodes) where
    -- A step that leaves the nodes on the stack alone.
    module _ (cells : ℕ → Node P.Rep A) (place : ℕ → Place)
        (same : (b : ℕ)
          → s.place b ≡ Place.stacked
          → (place b ≡ Place.stacked) × (cells b ≡ s.cells b))
        (pool : (b : ℕ) → place b ≢ Place.outside → s.place b ≢ Place.outside)
        (null_outside : place null ≡ Place.outside) where
      quiet-SharedInv : SharedInv P (record s { cells = cells; place = place }) nodes
      quiet-SharedInv = record {
        links =
            Links-frame P s.cells cells (P.get_ptr s.tos) nodes inv.links
              (λ b h. (same b (inv.on_stack b h)).1);
        on_stack = λ b h. (same b (inv.on_stack b h)).0;
        once = inv.once;
        replays =
            rw
              (contents-frame P s.cells cells nodes
                (λ b h. ap (λ (c : Node P.Rep A). c.value) (same b (inv.on_stack b h)).1))
              inv.replays;
        null_outside = null_outside;
        lt_limit = λ b h. inv.lt_limit b (pool b h);
        tag = inv.tag;
      }

    node-lt : (b : ℕ) → 0 < occurrences b nodes → b < P.ptr_limit
    node-lt b h = let there = inv.on_stack b h in inv.lt_limit b (λ e. ground arith)

    pub tos-lt : P.get_ptr s.tos < P.ptr_limit
    tos-lt = Links-lt P s.cells (P.get_ptr s.tos) nodes inv.links node-lt

    pub same-Frame : Frame P i s s
    same-Frame = record {
      others = λ b j ne h. (h, refl);
      stack = λ b h e. (h, refl);
      pool = λ b h. h;
      monotone = omega arith;
    }

    pub logged-Frame : (log : List (Event A)) → Frame P i s (record s { log = log })
    logged-Frame log = record {
      others = λ b j ne h. (h, refl);
      stack = λ b h e. (h, refl);
      pool = λ b h. h;
      monotone = omega arith;
    }

    pub Seen-tos : P.get_ptr s.tos ≢ null → Seen P s s.tos
    Seen-tos ne = record {
      ne_null = ne;
      inside = λ e. ground (arith, on_top);
      past = omega (arith, inv.tag);
      there = λ e. on_top;
    }
      where
        top :
            (xs : List ℕ)
            → Links P s.cells (P.get_ptr s.tos) xs
            → 0 < occurrences (P.get_ptr s.tos) xs
        top [] l = absurd (ne l)
        top (a ∷ rest) l = ground (arith, l.0)

        on_top : s.place (P.get_ptr s.tos) ≡ Place.stacked
        on_top = inv.on_stack (P.get_ptr s.tos) (top nodes inv.links)

    -- An empty stack has no nodes.
    no_nodes : P.get_ptr s.tos ≡ null → nodes ≡ []
    no_nodes e = none nodes inv.links
      where
        none : (xs : List ℕ) → Links P s.cells (P.get_ptr s.tos) xs → xs ≡ []
        none [] l = refl
        none (a ∷ rest) l = absurd (l.1 (sym l.0 ∙ e))

    pub empty-SharedInv :
        P.get_ptr s.tos ≡ null → SharedInv P (record s { log = Event.was_empty ∷ s.log }) nodes
    empty-SharedInv e = record {
      links = inv.links;
      on_stack = inv.on_stack;
      once = inv.once;
      replays =
          subst (λ xs. Replays (Event.was_empty ∷ s.log) (contents P s.cells xs)) (sym (no_nodes e))
            (empty (subst (λ xs. Replays s.log (contents P s.cells xs)) (no_nodes e) inv.replays));
      null_outside = inv.null_outside;
      lt_limit = inv.lt_limit;
      tag = inv.tag;
    }

    -- A thread writes to a node that no other thread holds and that is not on the stack, and moves it
    -- to another such place.
    module _ (n : ℕ) (node : Node P.Rep A) (x : Place) (not_on : s.place n ≢ Place.stacked)
        (known : s.place n ≢ Place.outside) (x_off : x ≢ Place.stacked)
        (x_in : x ≢ Place.outside) where
      abbrev pub written : Shared P.Rep A
      written = record s { cells = update s.cells n node; place = update s.place n x }

      pub written-SharedInv : SharedInv P written nodes
      written-SharedInv =
          quiet-SharedInv (update s.cells n node) (update s.place n x) (λ b h. ground arith)
            (λ b h. ground arith) (ground (arith, inv.null_outside))

      pub written-Frame : ((j : ℕ) → j ≢ i → s.place n ≢ Place.held j) → Frame P i s written
      written-Frame mine = record {
        others = λ b j ne h. ground (arith, mine j ne);
        stack = λ b h e. ground arith;
        pool = λ b h. ground arith;
        monotone = omega arith;
      }

    -- A write to a node that thread `i` holds, and keeps.
    module _ (n : ℕ) (r : P.Rep) (mine : s.place n ≡ Place.held i) where
      pub linked-SharedInv : SharedInv P (record s { cells = set_link P n r s.cells }) nodes
      linked-SharedInv =
          quiet-SharedInv (set_link P n r s.cells) s.place (λ b h. ground arith) (λ b h. h)
            inv.null_outside

      pub linked-Frame : Frame P i s (record s { cells = set_link P n r s.cells })
      linked-Frame = record {
        others = λ b j ne h. ground arith;
        stack = λ b h e. ground arith;
        pool = λ b h. h;
        monotone = omega arith;
      }

    -- The node `n` of thread `i` goes on the stack.
    module _ (n : ℕ) (mine : s.place n ≡ Place.held i)
        (to_top : P.get_ptr (s.cells n).next ≡ P.get_ptr s.tos) (room : s.pops < P.tag_limit) where
      abbrev pub grown : Shared P.Rep A
      grown = record s {
        tos = P.make n (P.get_tag s.tos);
        place = update s.place n Place.stacked;
        log = Event.pushed (s.cells n).value ∷ s.log;
      }

      small : n < P.ptr_limit
      small = inv.lt_limit n (λ e. ground arith)

      not_there : occurrences n nodes ≡ 0
      not_there = ground (arith, inv.on_stack n)

      not_null : n ≢ null
      not_null e = ground (arith, inv.null_outside)

      pub grown-SharedInv : SharedInv P grown (n ∷ nodes)
      grown-SharedInv = record {
        links = (P.get_ptr-make n (P.get_tag s.tos) small, not_null, rw to_top inv.links);
        on_stack = λ b h. ground (arith, inv.on_stack b);
        once = λ b. ground (arith, inv.once b, not_there);
        replays = push inv.replays;
        null_outside = ground (arith, inv.null_outside);
        lt_limit = λ b h. inv.lt_limit b (λ e. ground arith);
        tag =
            P.get_tag-make n (P.get_tag s.tos) small
            ∙ mod-eq_of_lt (omega (arith, inv.tag))
            ∙ inv.tag;
      }

      pub grown-Frame : Frame P i s grown
      grown-Frame = record {
        others = λ b j ne h. ground arith;
        stack = λ b h e. ground arith;
        pool = λ b h. ground arith;
        monotone = omega arith;
      }

  -- Thread `i` takes the node `a` off the stack.
  module _ (i : ℕ) (s : Shared P.Rep A) (a : ℕ) (rest : List ℕ) (inv : SharedInv P s (a ∷ rest))
      (room : s.pops + 1 < P.tag_limit) where
    abbrev pub shrunk : Shared P.Rep A
    shrunk = record s {
      tos = P.make (P.get_ptr (s.cells a).next) (P.get_tag s.tos + 1);
      place = update s.place a (Place.held i);
      pops = s.pops + 1;
      log = Event.popped (s.cells a).value ∷ s.log;
    }

    on_top : s.place a ≡ Place.stacked
    on_top = inv.on_stack a (ground arith)

    small_next : P.get_ptr (s.cells a).next < P.ptr_limit
    small_next =
        Links-lt P s.cells (P.get_ptr (s.cells a).next) rest inv.links.2
          (λ b h. node-lt i s (a ∷ rest) inv b (omega (arith, h)))

    pub shrunk-SharedInv : SharedInv P shrunk rest
    shrunk-SharedInv = record {
      links =
          rw (P.get_ptr-make (P.get_ptr (s.cells a).next) (P.get_tag s.tos + 1) small_next)
            inv.links.2;
      on_stack = λ b h. ground (arith, inv.on_stack b, inv.once b);
      once = λ b. ground (arith, inv.once b);
      replays = pop inv.replays;
      null_outside = ground (arith, inv.null_outside, on_top);
      lt_limit = λ b h. inv.lt_limit b (λ e. ground (arith, on_top));
      tag =
          P.get_tag-make (P.get_ptr (s.cells a).next) (P.get_tag s.tos + 1) small_next
          ∙ mod-eq_of_lt (omega (arith, inv.tag))
          ∙ ap (λ k. k + 1) inv.tag;
    }

    pub shrunk-Frame : Frame P i s shrunk
    shrunk-Frame = record {
      others = λ b j ne h. ground (arith, on_top);
      stack = λ b h e. absurd (omega (arith, e));
      pool = λ b h. ground arith;
      monotone = omega arith;
    }
