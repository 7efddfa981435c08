-- ===== src/Stack/Concurrent/Safety.antt =====
-- What the invariant gives to the clients of the stack.
use boost_lockfree.Prelude.{
  ℕ, ◌≤◌, ◌<◌, ◌≡◌, ◌≢◌, arith, Bool, true, false, Option, none, some, List,
}
use boost_lockfree.TaggedPtr.{TaggedPtrOps}
use boost_lockfree.Memory.{Node, null}
use boost_lockfree.Memory.Links.{occurrences, Links, contents}
use boost_lockfree.Stack.Concurrent.{Place, Pc, System, Reach}
use boost_lockfree.Stack.Concurrent.Invariant.{Replays, ThreadInv}
use boost_lockfree.Stack.Concurrent.Moves.{Reach-Inv}

-- The node that a thread has in its hands, to itself.
abbrev pub node_of : {R A : Type 0} → Pc R A → Option ℕ
node_of Pc.idle = none
node_of (Pc.built n) = some n
node_of (Pc.pushing n old) = some n
node_of (Pc.linked n old) = some n
node_of (Pc.popping old) = none
node_of (Pc.unlinking old q) = none
node_of (Pc.taken a due) = some a
node_of (Pc.fetched a v due) = some a

module _ (P : TaggedPtrOps) {A : Type 0} (pool : ℕ → Bool) (cells : ℕ → Node P.Rep A)
    (null_out : pool null ≡ false) (small : (b : ℕ) → pool b ≡ true → b < P.ptr_limit)
    (s : System P.Rep A) (reached : Reach P pool cells s)
    (window : s.shared.pops < P.tag_limit) where
  -- In every state that any number of threads reach, the links lead from `tos` through nodes that
  -- stand once each to null, and hold what a stack of values holds on which the operations happened
  -- one after another, each at the moment that the log says: a push and a successful pop at their
  -- `compare_exchange_weak`, and a pop that finds nothing when it reads `tos`. Fewer nodes have been
  -- taken off than there are tags; the pool is of addresses that a tagged pointer can hold, without
  -- null.
  pub stack_linearizable :
      (nodes : List ℕ) × Links P s.shared.cells (P.get_ptr s.shared.tos) nodes
      × ((b : ℕ) → occurrences b nodes ≤ 1)
      × Replays s.shared.log (contents P s.shared.cells nodes)
  stack_linearizable =
      let (nodes, inv, threads) = Reach-Inv P pool cells null_out small s reached window in
      (nodes, inv.links, inv.once, inv.replays)

  fetched-due :
      (i a : ℕ) (v due : A) (p : Pc P.Rep A)
      → ThreadInv P s.shared i p
      → p ≡ Pc.fetched a v due
      → v ≡ due
  fetched-due i a v due p k e = (rw e at k).1

  -- What a successful `pop` reads from its node and returns is the value that its event says, though
  -- it reads it later. Fewer nodes have been taken off than there are tags; the pool is of addresses
  -- that a tagged pointer can hold, without null.
  pub pop_returns_due : (i a : ℕ) (v due : A) → s.pc i ≡ Pc.fetched a v due → v ≡ due
  pop_returns_due i a v due e =
      let (nodes, inv, threads) = Reach-Inv P pool cells null_out small s reached window in
      fetched-due i a v due (s.pc i) (threads i) e

  held-node :
      (i a : ℕ) (p : Pc P.Rep A)
      → ThreadInv P s.shared i p
      → node_of p ≡ some a
      → s.shared.place a ≡ Place.held i
  held-node i a Pc.idle k e = cc
  held-node i a (Pc.built n) k e = cc
  held-node i a (Pc.pushing n old) k e = cc (k.0)
  held-node i a (Pc.linked n old) k e = cc (k.0)
  held-node i a (Pc.popping old) k e = cc
  held-node i a (Pc.unlinking old q) k e = cc
  held-node i a (Pc.taken b due) k e = cc (k.0)
  held-node i a (Pc.fetched b v due) k e = cc (k.0)

  -- The node that a thread builds, or has taken off, is not null, not on the stack, and in no other
  -- thread's hands. Fewer nodes have been taken off than there are tags; the pool is of addresses that a
  -- tagged pointer can hold, without null.
  pub stack_nodes_unshared :
      (i a : ℕ)
      → node_of (s.pc i) ≡ some a
      → (a ≢ null)
        × ((j b : ℕ) → i ≢ j → node_of (s.pc j) ≡ some b → a ≢ b)
        × (nodes : List ℕ) × Links P s.shared.cells (P.get_ptr s.shared.tos) nodes
        × (occurrences a nodes ≡ 0)
  stack_nodes_unshared i a has_a =
      let (nodes, inv, threads) = Reach-Inv P pool cells null_out small s reached window in
      let at_a : s.shared.place a ≡ Place.held i = held-node i a (s.pc i) (threads i) has_a in
      (
        λ e. ground (arith, inv.null_outside),
        λ j b ne has_b e.
            let at_b : s.shared.place b ≡ Place.held j = held-node j b (s.pc j) (threads j) has_b in
            ground arith,
        nodes,
        inv.links,
        ground (arith, inv.on_stack a),
      )
