-- ===== src/Fifo/Concurrent/Kept.antt =====
-- What the writes of a thread on the fifo come to: the invariant, and what it knows afterwards.
use native.Mathlib.Nat.{mod-eq_of_lt}
use boost_lockfree.Prelude.{
  ℕ, ◌+◌, ◌<◌, ◌≡◌, ◌≢◌, refl, sym, ap, subst, ◌∙◌, arith, true, ◌==◌, List, [], ◌∷◌, ◌++◌,
}
use boost_lockfree.TaggedPtr.{TaggedPtrOps}
use boost_lockfree.Memory.{Node, null}
use boost_lockfree.Memory.Links.{occurrences, contents, Links-last}
use boost_lockfree.Fifo.Concurrent.{
  Place, Shared, Pc, build, move_tail, link_node, take_off, give_back,
}
use boost_lockfree.Fifo.Concurrent.Invariant.{
  Replays, Behind, Ends, Read, ThreadInv, SharedInv, Frame,
}
use boost_lockfree.Fifo.Concurrent.Preservation.{
  Window, head_in, same-Frame, next-In, written-SharedInv, written-Frame, move_tail-SharedInv,
  move_tail-Frame,
}
use boost_lockfree.Fifo.Concurrent.Growth.{
  link_node-SharedInv, link_node-Frame, shortened-SharedInv, shortened-Frame,
}

module _ (P : TaggedPtrOps) {A : Type 0} (cells : ℕ → Node P.Rep A) where
  -- What a move of thread `i` from `s` to `t` comes to.
  abbrev pub Kept : ℕ → Shared P.Rep A → Shared P.Rep A → Pc P.Rep A → Type 0
  Kept i s t p =
      (d : ℕ) × (nodes : List ℕ) × SharedInv P cells t d nodes × Frame P i s t × ThreadInv P t i p

  pub Behind-now : (r : P.Rep) → Behind P r r
  Behind-now r = (omega arith, λ e. refl)

  module _ (i : ℕ) (s : Shared P.Rep A) (d : ℕ) (nodes : List ℕ)
      (inv : SharedInv P cells s d nodes) where
    pub quiet : (p : Pc P.Rep A) → ThreadInv P s i p → Kept i s s p
    quiet p k = (d, nodes, inv, same-Frame P cells i s d nodes inv, k)

    -- When the dummy has no successor, the queue is empty.
    pub empty-Replays : P.get_ptr (s.cells (P.get_ptr s.head)).next ≡ null → Replays s.log []
    empty-Replays e =
        let none : nodes ≡ [] =
          Links-last P s.cells (P.get_ptr s.head) d nodes inv.links (rw (← inv.links.0) e) in
        subst (λ xs. Replays s.log (contents P s.cells xs)) none inv.replays

    pub construct-Kept :
        (v : A) (n : ℕ)
        → s.place n ≡ Place.free
        → Window P cells (build P i v n s)
        → Kept i s (build P i v n s) (Pc.built n)
    construct-Kept v n free room =
        let next = P.make null (P.get_tag (s.cells n).next + 1) in
        let node : Node P.Rep A = record { next = next; value = v } in
        let grown : P.get_tag next ≡ P.get_tag (s.cells n).next + 1 =
          P.get_tag-make null (P.get_tag (s.cells n).next + 1) P.some_limit
          ∙ mod-eq_of_lt (omega (arith, room n, inv.next_tag n)) in
        let not_on : s.place n ≢ Place.queued = λ e. ground arith in
        let known : s.place n ≢ Place.outside = λ e. ground arith in
        let here : (n == n) ≡ true = ground arith in
        (
          d,
          nodes,
          written-SharedInv P cells i s d nodes inv n node (Place.held i) (s.ticks + 1) not_on known
              (λ e. ground arith) (λ e. ground arith) (omega arith) (omega (arith, grown))
              (omega (arith, grown, inv.next_tag n)),
          written-Frame P cells i s d nodes inv n node (Place.held i) (s.ticks + 1) not_on known
              (λ e. ground arith) (λ e. ground arith) (omega arith) (omega (arith, grown))
              (omega (arith, grown, inv.next_tag n)) (λ j ne e. ground arith),
          (
            ground arith,
            rw here (P.get_ptr-make null (P.get_tag (s.cells n).next + 1) P.some_limit),
          ),
        )

    pub destruct-Kept :
        (a q : ℕ)
        → s.place a ≡ Place.held i
        → q < P.ptr_limit
        → Kept i s (give_back P a q s) Pc.idle
    destruct-Kept a q mine small =
        let node : Node P.Rep A = record {
          next = P.set_ptr (s.cells a).next q;
          value = (s.cells a).value;
        } in
        let same = P.get_tag-set_ptr (s.cells a).next q small in
        let not_on : s.place a ≢ Place.queued = λ e. ground arith in
        let known : s.place a ≢ Place.outside = λ e. ground arith in
        (
          d,
          nodes,
          written-SharedInv P cells i s d nodes inv a node Place.free s.ticks not_on known
              (λ e. ground arith) (λ e. ground arith) (omega arith) (omega (arith, same))
              (omega (arith, same, inv.next_tag a)),
          written-Frame P cells i s d nodes inv a node Place.free s.ticks not_on known
              (λ e. ground arith) (λ e. ground arith) (omega arith) (omega (arith, same))
              (omega (arith, same, inv.next_tag a)) (λ j ne e. ground arith),
          tt,
        )

    -- The tail moves to the node after its own.
    pub move_tail-Kept :
        (tail : P.Rep) (p : ℕ) (pc : Pc P.Rep A)
        → s.tail ≡ tail
        → P.get_ptr (s.cells (P.get_ptr tail)).next ≡ p
        → p ≢ null
        → Window P cells (move_tail P tail p s)
        → ThreadInv P (move_tail P tail p s) i pc
        → Kept i s (move_tail P tail p s) pc
    move_tail-Kept tail p pc e leads ne room k =
        let t_in : s.place (P.get_ptr tail) ≡ Place.queued = rw (← e) inv.tail_in in
        let leads' = ap (λ (x : P.Rep). P.get_ptr (s.cells (P.get_ptr x)).next) e ∙ leads in
        let there : 0 < occurrences p nodes =
          subst (λ x. 0 < occurrences x nodes) leads
            (next-In P cells i s d nodes inv (P.get_ptr tail) t_in (λ x. ne (sym leads ∙ x))) in
        (
          d,
          nodes,
          subst (λ x. SharedInv P cells (move_tail P x p s) d nodes) e
              (move_tail-SharedInv P cells i s d nodes inv p leads' ne there room),
          subst (λ x. Frame P i s (move_tail P x p s)) e
              (move_tail-Frame P cells i s d nodes inv p leads' ne there room),
          k,
        )

    pub link-Kept :
        (n : ℕ) (tail next : P.Rep)
        → ThreadInv P s i (Pc.tail_checked n tail next)
        → P.get_ptr next ≡ null
        → (s.cells (P.get_ptr tail)).next ≡ next
        → Window P cells (link_node P n tail next s)
        → Kept i s (link_node P n tail next s) (Pc.linked n tail)
    link-Kept n tail next k e found room =
        let t_tag = ap P.get_tag found in
        let (t_in, t_last, tail_here) = (k.3 e).1 (sym t_tag) in
        let small : n < P.ptr_limit = inv.lt_limit n (λ x. ground (arith, k.0)) in
        let here : (P.get_ptr tail == P.get_ptr tail) ≡ true = ground arith in
        (
          d,
          nodes ++ n ∷ [],
          link_node-SharedInv P cells i s d nodes inv n tail next k.0 k.1 t_in t_last t_tag
              tail_here room,
          link_node-Frame P cells i s d nodes inv n tail next k.0 k.1 t_in t_last t_tag tail_here
              room,
          (
            k.2,
            λ x. ground (arith, k.0, inv.null_outside),
            λ x. rw here (P.get_ptr-make n (P.get_tag next + 1) small),
          ),
        )

  pub take_off-Kept :
      (i : ℕ) (s : Shared P.Rep A) (d : ℕ) (nodes : List ℕ) (head next : P.Rep) (ret : A)
      → SharedInv P cells s d nodes
      → ThreadInv P s i (Pc.value_read head next ret)
      → s.head ≡ head
      → Window P cells (take_off P i head next s)
      → Kept i s
          (take_off P i head next s)
          (Pc.taken (P.get_ptr head) ret (s.cells (P.get_ptr next)).value)
  take_off-Kept i s d [] head next ret inv k e room =
      let (off, leads, there, same) = k.2 e in
      let at : P.get_ptr head ≡ d = ap P.get_ptr (sym e) ∙ inv.links.0 in
      let ends : P.get_ptr (s.cells (P.get_ptr head)).next ≡ null = rw at inv.links.2 in
      absurd (k.1 (sym leads ∙ ends))
  take_off-Kept i s d (q ∷ rest) head next ret inv k e room =
      let (off, leads, there, same) = k.2 e in
      let at : P.get_ptr head ≡ d = ap P.get_ptr (sym e) ∙ inv.links.0 in
      let to_q : P.get_ptr next ≡ q =
        sym leads ∙ ap (λ x. P.get_ptr (s.cells x).next) at ∙ inv.links.2.0 in
      let tail_off : P.get_ptr s.tail ≢ d = λ x. off (x ∙ sym at) in
      let due = subst (λ x. ret ≡ (s.cells x).value) to_q (sym same) in
      rw (← e, inv.links.0, to_q)
        (
          q,
          rest,
          shortened-SharedInv P cells i s d q rest inv tail_off room,
          shortened-Frame P cells i s d q rest inv tail_off room,
          (ground arith, due),
        )

  pub Ends-Read :
      (i : ℕ) (s : Shared P.Rep A) (d : ℕ) (nodes : List ℕ) (head tail : P.Rep)
      → SharedInv P cells s d nodes
      → Ends P s head tail
      → Read P s head tail (s.cells (P.get_ptr head)).next
  Ends-Read i s d nodes head tail inv k = record {
    ends = k;
    first = λ e ne. refl;
    last = λ e same ne. ap (λ x. P.get_ptr (s.cells x).next) (sym same);
  }

  pub value-ThreadInv :
      (i : ℕ) (s : Shared P.Rep A) (d : ℕ) (nodes : List ℕ) (head tail next : P.Rep)
      → SharedInv P cells s d nodes
      → Read P s head tail next
      → P.get_ptr head ≢ P.get_ptr tail
      → P.get_ptr next ≢ null
      → ThreadInv P s i (Pc.value_read head next (s.cells (P.get_ptr next)).value)
  value-ThreadInv i s d nodes head tail next inv k ne some = (
    k.ends.head_behind,
    some,
    λ e.
        let leads = k.first e some in
        let at : s.place (P.get_ptr head) ≡ Place.queued =
          rw (← e) (head_in P cells i s d nodes inv) in
        let there : 0 < occurrences (P.get_ptr next) nodes =
          subst (λ x. 0 < occurrences x nodes) leads
            (next-In P cells i s d nodes inv (P.get_ptr head) at (λ x. some (sym leads ∙ x))) in
        (
          k.ends.apart e (λ x. ne (sym x)),
          leads,
          inv.in_queue (P.get_ptr next) (omega (arith, there)),
          refl,
        ),
  )
