-- ===== src/Freelist/Concurrent/Safety.antt =====
-- What the invariant gives to the clients of the pool.
use boost_lockfree.Prelude.{
  ℕ, ◌+◌, ◌≤◌, ◌<◌, ◌≡◌, ◌≢◌, arith, Bool, Option, none, some, List, [], ◌∷◌, ◌==◌, if◌then◌else◌,
}
use boost_lockfree.TaggedPtr.{TaggedPtrOps}
use boost_lockfree.Memory.{Node, null}
use boost_lockfree.Memory.Links.{occurrences, Links}
use boost_lockfree.Freelist.Concurrent.{Place, Event, Pc, System, Reach}
use boost_lockfree.Freelist.Concurrent.Invariant.{Replays, fresh, give, take, empty, ThreadInv}
use boost_lockfree.Freelist.Concurrent.Moves.{Reach-Inv}

-- How often a node has been given to the pool, and taken from it.
abbrev pub times_given : ℕ → List Event → ℕ
times_given n [] = 0
times_given n (Event.given a ∷ es) = (if n == a then 1 else 0) + times_given n es
times_given n (Event.taken a ∷ es) = times_given n es
times_given n (Event.was_empty ∷ es) = times_given n es

abbrev pub times_taken : ℕ → List Event → ℕ
times_taken n [] = 0
times_taken n (Event.given a ∷ es) = times_taken n es
times_taken n (Event.taken a ∷ es) = (if n == a then 1 else 0) + times_taken n es
times_taken n (Event.was_empty ∷ es) = times_taken n es

Replays-balance :
    (n : ℕ) (es : List Event) (xs : List ℕ)
    → Replays es xs
    → times_given n es ≡ times_taken n es + occurrences n xs
Replays-balance n es xs fresh = omega arith
Replays-balance n es xs (give {es = before} {xs = ys} r) =
    omega (arith, Replays-balance n before ys r)
Replays-balance n es xs (take {n = a} {es = before} r) =
    omega (arith, Replays-balance n before (a ∷ xs) r)
Replays-balance n es xs (empty {es = before} r) = omega (arith, Replays-balance n before [] r)

-- The node that an operation of a thread has in its hands.
abbrev pub node_of : {R : Type 0} → Pc R → Option ℕ
node_of (Pc.returned n) = some n
node_of (Pc.giving n) = some n
node_of (Pc.deallocating n old) = some n
node_of (Pc.linked n old) = some n
node_of p = none

module _ (P : TaggedPtrOps) {A : Type 0} (may_allocate : Bool) (cells : ℕ → Node P.Rep A)
    (s : System P.Rep A) (reached : Reach P may_allocate cells s)
    (window : s.shared.takes < P.tag_limit) where
  -- In every state that any number of threads reach in `allocate`, `deallocate` and `reserve`, while the
  -- clients write what they like to the nodes that they have, the links lead from `pool_` through nodes
  -- that stand once each to null, and these are those of a stack of nodes on which the operations
  -- happened one after another, each at the moment that the log says; every node has been given just
  -- as often as it has been taken, and once more if it is in the pool. Fewer nodes have been taken
  -- than there are tags.
  pub pool_linearizable :
      (nodes : List ℕ) × Links P s.shared.cells (P.get_ptr s.shared.pool) nodes
      × ((b : ℕ) → occurrences b nodes ≤ 1)
      × Replays s.shared.log nodes
      × ((b : ℕ) → times_given b s.shared.log ≡ times_taken b s.shared.log + occurrences b nodes)
  pool_linearizable =
      let (nodes, inv, threads) = Reach-Inv P may_allocate cells s reached window in
      (
        nodes,
        inv.links,
        inv.once,
        inv.replays,
        λ b. Replays-balance b s.shared.log nodes inv.replays,
      )

  held-node :
      (i a : ℕ) (p : Pc P.Rep)
      → ThreadInv P s.shared i p
      → node_of p ≡ some a
      → s.shared.place a ≡ Place.held i
  held-node i a Pc.idle k e = cc
  held-node i a (Pc.allocating old) k e = cc
  held-node i a (Pc.unlinking old q) k e = cc
  held-node i a Pc.exhausted k e = cc
  held-node i a (Pc.returned n) k e = cc (k)
  held-node i a (Pc.giving n) k e = cc (k)
  held-node i a (Pc.deallocating n old) k e = cc (k.0)
  held-node i a (Pc.linked n old) k e = cc (k.0)

  -- The node that `allocate` returns to a thread, or that a thread gives back, is not null, with no
  -- client, not in the pool, and in no other thread's hands. Fewer nodes have been taken than there
  -- are tags.
  pub allocate_unshared :
      (i a : ℕ)
      → node_of (s.pc i) ≡ some a
      → (a ≢ null)
        × (s.shared.place a ≢ Place.out)
        × ((j b : ℕ) → i ≢ j → node_of (s.pc j) ≡ some b → a ≢ b)
        × (nodes : List ℕ) × Links P s.shared.cells (P.get_ptr s.shared.pool) nodes
        × (occurrences a nodes ≡ 0)
  allocate_unshared i a has_a =
      let (nodes, inv, threads) = Reach-Inv P may_allocate cells s reached window in
      let at_a : s.shared.place a ≡ Place.held i = held-node i a (s.pc i) (threads i) has_a in
      (
        λ e. ground (arith, inv.null_outside),
        λ e. ground arith,
        λ j b ne has_b e.
            let at_b : s.shared.place b ≡ Place.held j = held-node j b (s.pc j) (threads j) has_b in
            ground arith,
        nodes,
        inv.links,
        ground (arith, inv.in_pool a),
      )
