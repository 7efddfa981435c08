-- ===== src/Freelist/Concurrent/Preservation.antt =====
-- What each kind of write to the shared state of the pool keeps.
use native.Mathlib.Nat.{mod-eq_of_lt}
use boost_lockfree.Prelude.{
  ℕ, ◌+◌, ◌<◌, ◌≡◌, ◌≢◌, refl, sym, ap, subst, ◌∙◌, arith, List, [], ◌∷◌, ◌==◌, Bool-cases, ==_iff,
  inl, inr,
}
use boost_lockfree.TaggedPtr.{TaggedPtrOps}
use boost_lockfree.Memory.{Node, null}
use boost_lockfree.Memory.Links.{update, occurrences, Links, Links-frame, Links-lt}
use boost_lockfree.Freelist.Concurrent.{Place, Event, Shared}
use boost_lockfree.Freelist.Concurrent.Invariant.{
  Replays, give, take, empty, Seen, SharedInv, Frame,
}

module _ (P : TaggedPtrOps) {A : Type 0} where
  module _ (i : ℕ) (s : Shared P.Rep A) (nodes : List ℕ) (inv : SharedInv P s nodes) where
    -- A step that changes one node, which is not in the pool before and after, and no other thread's.
    module _ (n : ℕ) (cells : ℕ → Node P.Rep A) (place : ℕ → Place)
        (n_off : s.place n ≢ Place.pooled) (off_still : place n ≢ Place.pooled)
        (elsewhere : (b : ℕ) → b ≢ n → (place b ≡ s.place b) × (cells b ≡ s.cells b))
        (some_node : n ≢ null) (small : n < P.ptr_limit) where
      kept : (b : ℕ) → s.place b ≡ Place.pooled → (place b ≡ Place.pooled) × (cells b ≡ s.cells b)
      kept b h =
          let (same, cell) = elsewhere b (λ e. n_off (subst (λ x. s.place x ≡ Place.pooled) e h)) in
          (same ∙ h, cell)

      pub quiet-SharedInv : SharedInv P (record s { cells = cells; place = place }) nodes
      quiet-SharedInv = record {
        links =
            Links-frame P s.cells cells (P.get_ptr s.pool) nodes inv.links
              (λ b h. (kept b (inv.in_pool b h)).1);
        in_pool = λ b h. (kept b (inv.in_pool b h)).0;
        all_in = λ b h.
            let away : b ≢ n = λ e. off_still (subst (λ x. place x ≡ Place.pooled) e h) in
            inv.all_in b (sym (elsewhere b away).0 ∙ h);
        once = inv.once;
        replays = inv.replays;
        null_outside = (elsewhere null (λ e. some_node (sym e))).0 ∙ inv.null_outside;
        lt_limit = λ b h. elim (Bool-cases (b == n)) [
          | inl e ↦ rw ((==_iff b n).0 e) small
          | inr e ↦ inv.lt_limit b (λ x. h ((elsewhere b (λ same. ground (arith, e))).0 ∙ x))
        ];
        tag = inv.tag;
      }

      pub quiet-Frame :
          ((j : ℕ) → j ≢ i → s.place n ≢ Place.held j)
          → Frame P i s (record s { cells = cells; place = place })
      quiet-Frame mine = record {
        others = λ b j ne h.
            let (same, cell) =
              elsewhere b (λ e. mine j ne (subst (λ x. s.place x ≡ Place.held j) e h)) in
            (same ∙ h, cell);
        pooled = λ b h e. kept b h;
        monotone = omega arith;
      }

    node-lt : (b : ℕ) → 0 < occurrences b nodes → b < P.ptr_limit
    node-lt b h = let there = inv.in_pool b h in inv.lt_limit b (λ e. ground arith)

    pub pool-lt : P.get_ptr s.pool < P.ptr_limit
    pool-lt = Links-lt P s.cells (P.get_ptr s.pool) nodes inv.links node-lt

    pub logged-Frame : (log : List Event) → Frame P i s (record s { log = log })
    logged-Frame log = record {
      others = λ b j ne h. (h, refl);
      pooled = λ b h e. (h, refl);
      monotone = omega arith;
    }

    pub same-Frame : Frame P i s s
    same-Frame = logged-Frame s.log

    pub Seen-pool : P.get_ptr s.pool ≢ null → Seen P s s.pool
    Seen-pool ne = record { ne_null = ne; past = omega (arith, inv.tag); there = λ e. on_top }
      where
        top :
            (xs : List ℕ)
            → Links P s.cells (P.get_ptr s.pool) xs
            → 0 < occurrences (P.get_ptr s.pool) xs
        top [] l = absurd (ne l)
        top (a ∷ rest) l = ground (arith, l.0)

        on_top : s.place (P.get_ptr s.pool) ≡ Place.pooled
        on_top = inv.in_pool (P.get_ptr s.pool) (top nodes inv.links)

    -- An empty pool has no nodes.
    no_nodes : P.get_ptr s.pool ≡ null → nodes ≡ []
    no_nodes e = none nodes inv.links
      where
        none : (xs : List ℕ) → Links P s.cells (P.get_ptr s.pool) xs → xs ≡ []
        none [] l = refl
        none (a ∷ rest) l = absurd (l.1 (sym l.0 ∙ e))

    pub empty-SharedInv :
        P.get_ptr s.pool ≡ null → SharedInv P (record s { log = Event.was_empty ∷ s.log }) nodes
    empty-SharedInv e = record {
      links = inv.links;
      in_pool = inv.in_pool;
      all_in = inv.all_in;
      once = inv.once;
      replays =
          subst (λ xs. Replays (Event.was_empty ∷ s.log) xs) (sym (no_nodes e))
            (empty (subst (λ xs. Replays s.log xs) (no_nodes e) inv.replays));
      null_outside = inv.null_outside;
      lt_limit = inv.lt_limit;
      tag = inv.tag;
    }

    -- The node `n` of thread `i` goes into the pool.
    module _ (n : ℕ) (mine : s.place n ≡ Place.held i)
        (to_top : P.get_ptr (s.cells n).next ≡ P.get_ptr s.pool)
        (room : s.takes < P.tag_limit) where
      abbrev pub grown : Shared P.Rep A
      grown = record s {
        pool = P.make n (P.get_tag s.pool);
        place = update s.place n Place.pooled;
        log = Event.given n ∷ s.log;
      }

      small : n < P.ptr_limit
      small = inv.lt_limit n (λ e. ground arith)

      not_there : occurrences n nodes ≡ 0
      not_there = ground (arith, inv.in_pool n)

      not_null : n ≢ null
      not_null e = ground (arith, inv.null_outside)

      pub grown-SharedInv : SharedInv P grown (n ∷ nodes)
      grown-SharedInv = record {
        links = (P.get_ptr-make n (P.get_tag s.pool) small, not_null, rw to_top inv.links);
        in_pool = λ b h. ground (arith, inv.in_pool b);
        all_in = λ b h. ground (arith, inv.all_in b);
        once = λ b. ground (arith, inv.once b, not_there);
        replays = give inv.replays;
        null_outside = ground (arith, inv.null_outside);
        lt_limit = λ b h. inv.lt_limit b (λ e. ground arith);
        tag =
            P.get_tag-make n (P.get_tag s.pool) small
            ∙ mod-eq_of_lt (omega (arith, inv.tag))
            ∙ inv.tag;
      }

      pub grown-Frame : Frame P i s grown
      grown-Frame = record {
        others = λ b j ne h. ground arith;
        pooled = λ b h e. ground arith;
        monotone = omega arith;
      }

  -- Thread `i` takes the node `a` out of the pool.
  module _ (i : ℕ) (s : Shared P.Rep A) (a : ℕ) (rest : List ℕ) (inv : SharedInv P s (a ∷ rest))
      (room : s.takes + 1 < P.tag_limit) where
    abbrev pub shrunk : Shared P.Rep A
    shrunk = record s {
      pool = P.make (P.get_ptr (s.cells a).next) (P.get_tag s.pool + 1);
      place = update s.place a (Place.held i);
      takes = s.takes + 1;
      log = Event.taken a ∷ s.log;
    }

    on_top : s.place a ≡ Place.pooled
    on_top = inv.in_pool a (ground arith)

    small_next : P.get_ptr (s.cells a).next < P.ptr_limit
    small_next =
        Links-lt P s.cells (P.get_ptr (s.cells a).next) rest inv.links.2
          (λ b h. node-lt i s (a ∷ rest) inv b (omega (arith, h)))

    pub shrunk-SharedInv : SharedInv P shrunk rest
    shrunk-SharedInv = record {
      links =
          rw (P.get_ptr-make (P.get_ptr (s.cells a).next) (P.get_tag s.pool + 1) small_next)
            inv.links.2;
      in_pool = λ b h. ground (arith, inv.in_pool b, inv.once b);
      all_in = λ b h. ground (arith, inv.all_in b);
      once = λ b. ground (arith, inv.once b);
      replays = take inv.replays;
      null_outside = ground (arith, inv.null_outside, on_top);
      lt_limit = λ b h. inv.lt_limit b (λ e. ground (arith, on_top));
      tag =
          P.get_tag-make (P.get_ptr (s.cells a).next) (P.get_tag s.pool + 1) small_next
          ∙ mod-eq_of_lt (omega (arith, inv.tag))
          ∙ ap (λ k. k + 1) inv.tag;
    }

    pub shrunk-Frame : Frame P i s shrunk
    shrunk-Frame = record {
      others = λ b j ne h. ground (arith, on_top);
      pooled = λ b h e. absurd (omega (arith, e));
      monotone = omega arith;
    }
