-- ===== src/Freelist/Concurrent/Invariant.antt =====
-- The invariant of the threads on the pool, and what the steps of one thread leave to the others.
use boost_lockfree.Prelude.{ℕ, ◌≤◌, ◌<◌, ◌≡◌, ◌≢◌, arith, List, [], ◌∷◌}
use boost_lockfree.TaggedPtr.{TaggedPtrOps}
use boost_lockfree.Memory.{null}
use boost_lockfree.Memory.Links.{occurrences, Links}
use boost_lockfree.Freelist.Concurrent.{Place, Event, Shared, Pc}

-- A stack of nodes on which the events happen one after another.
pub data Replays : List Event → List ℕ → Type 0 where
  fresh : Replays [] []
  give :
      {n : ℕ} {es : List Event} {xs : List ℕ}
      → Replays es xs
      → Replays (Event.given n ∷ es) (n ∷ xs)
  take :
      {n : ℕ} {es : List Event} {xs : List ℕ}
      → Replays es (n ∷ xs)
      → Replays (Event.taken n ∷ es) xs
  empty : {es : List Event} → Replays es [] → Replays (Event.was_empty ∷ es) []

module _ (P : TaggedPtrOps) {A : Type 0} where
  -- What a thread knows of the `pool_` that it has read: as long as no node has been taken since, its
  -- node is in the pool.
  pub record Seen (s : Shared P.Rep A) (old : P.Rep) : Type 0 where
    pub ne_null : P.get_ptr old ≢ null
    pub past : P.get_tag old ≤ s.takes
    pub there : P.get_tag old ≡ s.takes → s.place (P.get_ptr old) ≡ Place.pooled

  abbrev pub ThreadInv : Shared P.Rep A → ℕ → Pc P.Rep → Type 0
  ThreadInv s i Pc.idle = Unit {0}
  ThreadInv s i (Pc.allocating old) = Seen s old
  ThreadInv s i (Pc.unlinking old q) =
      Seen s old × (P.get_tag old ≡ s.takes → q ≡ P.get_ptr (s.cells (P.get_ptr old)).next)
  ThreadInv s i Pc.exhausted = Unit {0}
  ThreadInv s i (Pc.returned n) = s.place n ≡ Place.held i
  ThreadInv s i (Pc.giving n) = s.place n ≡ Place.held i
  ThreadInv s i (Pc.deallocating n old) = (s.place n ≡ Place.held i) × (P.get_ptr old < P.ptr_limit)
  ThreadInv s i (Pc.linked n old) =
      (s.place n ≡ Place.held i) × (P.get_ptr (s.cells n).next ≡ P.get_ptr old)

  -- What holds of the pool between any two steps; `nodes` are those in it, from the top.
  pub record SharedInv (s : Shared P.Rep A) (nodes : List ℕ) : Type 0 where
    pub links : Links P s.cells (P.get_ptr s.pool) nodes
    pub in_pool : (b : ℕ) → 0 < occurrences b nodes → s.place b ≡ Place.pooled
    pub all_in : (b : ℕ) → s.place b ≡ Place.pooled → 0 < occurrences b nodes
    pub once : (b : ℕ) → occurrences b nodes ≤ 1
    pub replays : Replays s.log nodes
    pub null_outside : s.place null ≡ Place.outside
    pub lt_limit : (b : ℕ) → s.place b ≢ Place.outside → b < P.ptr_limit
    pub tag : P.get_tag s.pool ≡ s.takes

  -- What thread `i` leaves as it was: the nodes that operations of the others hold, and the nodes in
  -- the pool for as long as none has been taken.
  pub record Frame (i : ℕ) (s t : Shared P.Rep A) : Type 0 where
    pub others :
        (b j : ℕ)
        → j ≢ i
        → s.place b ≡ Place.held j
        → (t.place b ≡ Place.held j) × (t.cells b ≡ s.cells b)
    pub pooled :
        (b : ℕ)
        → s.place b ≡ Place.pooled
        → t.takes ≡ s.takes
        → (t.place b ≡ Place.pooled) × (t.cells b ≡ s.cells b)
    pub monotone : s.takes ≤ t.takes

  module _ {i : ℕ} {s t : Shared P.Rep A} (f : Frame i s t) where
    same_takes : {k : ℕ} → k ≤ s.takes → k ≡ t.takes → (k ≡ s.takes) × (t.takes ≡ s.takes)
    same_takes past e = (omega (arith, f.monotone, e), omega (arith, f.monotone, e))

    Frame-Seen : (old : P.Rep) → Seen s old → Seen t old
    Frame-Seen old seen = record {
      ne_null = seen.ne_null;
      past = omega (arith, seen.past, f.monotone);
      there = λ e.
          let (now, kept) = same_takes seen.past e in
          (f.pooled (P.get_ptr old) (seen.there now) kept).0;
    }

    -- The others keep what they know.
    pub Frame-ThreadInv : (j : ℕ) → j ≢ i → (p : Pc P.Rep) → ThreadInv s j p → ThreadInv t j p
    Frame-ThreadInv j ne Pc.idle k = tt
    Frame-ThreadInv j ne (Pc.allocating old) k = Frame-Seen old k
    Frame-ThreadInv j ne (Pc.unlinking old q) k = (
      Frame-Seen old k.0,
      λ e.
          let (now, kept) = same_takes k.0.past e in
          rw (f.pooled (P.get_ptr old) (k.0.there now) kept).1 (k.1 now),
    )
    Frame-ThreadInv j ne Pc.exhausted k = tt
    Frame-ThreadInv j ne (Pc.returned n) k = (f.others n j ne k).0
    Frame-ThreadInv j ne (Pc.giving n) k = (f.others n j ne k).0
    Frame-ThreadInv j ne (Pc.deallocating n old) k = ((f.others n j ne k.0).0, k.1)
    Frame-ThreadInv j ne (Pc.linked n old) k =
        ((f.others n j ne k.0).0, rw (f.others n j ne k.0).1 k.1)
