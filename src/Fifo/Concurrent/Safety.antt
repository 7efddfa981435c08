-- ===== src/Fifo/Concurrent/Safety.antt =====
-- What the invariant gives to the clients of the fifo.
use boost_lockfree.Prelude.{ℕ, ◌≤◌, ◌<◌, ◌≡◌, ◌≢◌, arith, Bool, Option, none, some, List, [], ◌∷◌}
use boost_lockfree.TaggedPtr.{TaggedPtrOps}
use boost_lockfree.Memory.{Node}
use boost_lockfree.Memory.Links.{occurrences, Links, contents}
use boost_lockfree.Fifo.Concurrent.{Place, Event, Pc, System, Reach}
use boost_lockfree.Fifo.Concurrent.Invariant.{Replays, ThreadInv}
use boost_lockfree.Fifo.Concurrent.Preservation.{Window}
use boost_lockfree.Fifo.Concurrent.Runs.{IsPool, Reach-Inv}

-- The node that a thread has in its hands, to itself.
abbrev pub node_of : {R A : Type 0} → Pc R A → Option ℕ
node_of (Pc.built n) = some n
node_of (Pc.tail_loaded n tail) = some n
node_of (Pc.next_loaded n tail next) = some n
node_of (Pc.tail_checked n tail next) = some n
node_of (Pc.taken a ret due) = some a
node_of p = none

module _ (P : TaggedPtrOps) {A : Type 0} (pool : ℕ → Bool) (d : ℕ) (cells : ℕ → Node P.Rep A)
    (ok : IsPool P pool d) (s : System P.Rep A) (reached : Reach P pool d cells s)
    (window : Window P cells s.shared) where
  -- In every state that any number of threads reach, the links lead from `head_` through the dummy
  -- and nodes that stand once each to null, `tail_` leads to one of these, and the nodes after the
  -- dummy hold what a queue of values holds on which the operations happened one after another,
  -- each at the moment that the log says: an enqueue at the `compare_exchange_weak` of the last
  -- `next`, and a successful dequeue at that of `head_`. The tag of each link at the start and the
  -- number of writes that took a new tag since add up to less than there are tags; the pool and the
  -- first dummy are at addresses that a tagged pointer can hold, without null.
  pub fifo_linearizable :
      (dummy : ℕ) × (nodes : List ℕ) × Links P s.shared.cells
        (P.get_ptr s.shared.head)
        (dummy ∷ nodes)
      × ((b : ℕ) → occurrences b (dummy ∷ nodes) ≤ 1)
      × (0 < occurrences (P.get_ptr s.shared.tail) (dummy ∷ nodes))
      × Replays s.shared.log (contents P s.shared.cells nodes)
  fifo_linearizable =
      let (dummy, nodes, inv, threads) = Reach-Inv P pool d cells ok s reached window in
      (
        dummy,
        nodes,
        inv.links,
        inv.once,
        inv.all_in (P.get_ptr s.shared.tail) inv.tail_in,
        inv.replays,
      )

  taken-due :
      (i a : ℕ) (ret due : A) (p : Pc P.Rep A)
      → ThreadInv P s.shared i p
      → p ≡ Pc.taken a ret due
      → ret ≡ due
  taken-due i a ret due p k e = (rw e at k).1

  -- What a successful `dequeue` returns, which it read before its `compare_exchange_weak`, is the
  -- value that its event says. The tag of each link at the start and the number of writes that took
  -- a new tag since add up to less than there are tags; the pool and the first dummy are at
  -- addresses that a tagged pointer can hold, without null.
  pub dequeue_returns_due : (i a : ℕ) (ret due : A) → s.pc i ≡ Pc.taken a ret due → ret ≡ due
  dequeue_returns_due i a ret due e =
      let (dummy, nodes, inv, threads) = Reach-Inv P pool d cells ok s reached window in
      taken-due i a ret due (s.pc i) (threads i) e

  found_empty-Replays :
      (i : ℕ) (seen : List (Event A)) (p : Pc P.Rep A)
      → ThreadInv P s.shared i p
      → p ≡ Pc.found_empty seen
      → Replays seen []
  found_empty-Replays i seen p k e = rw e at k

  -- When `dequeue` returns false, the queue was empty at the moment that it read `next` of the
  -- head: the events up to then leave nothing. The tag of each link at the start and the number of
  -- writes that took a new tag since add up to less than there are tags; the pool and the first
  -- dummy are at addresses that a tagged pointer can hold, without null.
  pub dequeue_false-Replays :
      (i : ℕ) (seen : List (Event A)) → s.pc i ≡ Pc.found_empty seen → Replays seen []
  dequeue_false-Replays i seen e =
      let (dummy, nodes, inv, threads) = Reach-Inv P pool d cells ok s reached window in
      found_empty-Replays i seen (s.pc i) (threads i) e

  held-node :
      (i a : ℕ) (p : Pc P.Rep A)
      → ThreadInv P s.shared i p
      → node_of p ≡ some a
      → s.shared.place a ≡ Place.held i
  held-node i a (Pc.built n) k e = cc (k.0)
  held-node i a (Pc.tail_loaded n tail) k e = cc (k.0)
  held-node i a (Pc.next_loaded n tail next) k e = cc (k.0)
  held-node i a (Pc.tail_checked n tail next) k e = cc (k.0)
  held-node i a (Pc.taken b ret due) k e = cc (k.0)
  held-node i a Pc.idle k e = cc
  held-node i a (Pc.linked n tail) k e = cc
  held-node i a Pc.dequeuing k e = cc
  held-node i a (Pc.head_read head) k e = cc
  held-node i a (Pc.both_read head tail) k e = cc
  held-node i a (Pc.next_read head tail next seen) k e = cc
  held-node i a (Pc.head_checked head tail next seen) k e = cc
  held-node i a (Pc.value_read head next ret) k e = cc
  held-node i a (Pc.found_empty seen) k e = cc

  -- The node that a thread has built and not yet linked, or has taken off, is not in the queue and in
  -- no other thread's hands. The tag of each link at the start and the number of writes that
  -- took a new tag since add up to less than there are tags; the pool and the first dummy are at
  -- addresses that a tagged pointer can hold, without null.
  pub fifo_nodes_unshared :
      (i a : ℕ)
      → node_of (s.pc i) ≡ some a
      → ((j b : ℕ) → i ≢ j → node_of (s.pc j) ≡ some b → a ≢ b)
        × (dummy : ℕ) × (nodes : List ℕ) × Links P s.shared.cells
            (P.get_ptr s.shared.head)
            (dummy ∷ nodes)
        × (occurrences a (dummy ∷ nodes) ≡ 0)
  fifo_nodes_unshared i a has_a =
      let (dummy, nodes, inv, threads) = Reach-Inv P pool d cells ok s reached window in
      let at_a : s.shared.place a ≡ Place.held i = held-node i a (s.pc i) (threads i) has_a in
      (
        λ j b ne has_b e.
            let at_b : s.shared.place b ≡ Place.held j = held-node j b (s.pc j) (threads j) has_b in
            ground arith,
        dummy,
        nodes,
        inv.links,
        ground (arith, inv.in_queue a),
      )
