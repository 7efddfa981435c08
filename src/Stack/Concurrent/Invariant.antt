-- ===== src/Stack/Concurrent/Invariant.antt =====
-- The invariant of the threads on the stack, and what the steps of one thread leave to the others.
use boost_lockfree.Prelude.{ℕ, ◌≤◌, ◌<◌, ◌≡◌, ◌≢◌, arith, List, [], ◌∷◌}
use boost_lockfree.TaggedPtr.{TaggedPtrOps}
use boost_lockfree.Memory.{null}
use boost_lockfree.Memory.Links.{occurrences, Links, contents}
use boost_lockfree.Stack.Concurrent.{Place, Event, Shared, Pc}

-- A stack of values on which the events happen one after another.
pub data Replays {A : Type 0} : List (Event A) → List A → Type 0 where
  fresh : Replays [] []
  push :
      {v : A} {es : List (Event A)} {xs : List A}
      → Replays es xs
      → Replays (Event.pushed v ∷ es) (v ∷ xs)
  pop :
      {v : A} {es : List (Event A)} {xs : List A}
      → Replays es (v ∷ xs)
      → Replays (Event.popped v ∷ es) xs
  empty : {es : List (Event A)} → Replays es [] → Replays (Event.was_empty ∷ es) []

module _ (P : TaggedPtrOps) {A : Type 0} where
  -- What a thread knows of the `tos` that it has read: its node is one of the pool; and as long as
  -- no node has been taken off since, that node is on the stack.
  pub record Seen (s : Shared P.Rep A) (old : P.Rep) : Type 0 where
    pub ne_null : P.get_ptr old ≢ null
    pub inside : s.place (P.get_ptr old) ≢ Place.outside
    pub past : P.get_tag old ≤ s.pops
    pub there : P.get_tag old ≡ s.pops → s.place (P.get_ptr old) ≡ Place.stacked

  abbrev pub ThreadInv : Shared P.Rep A → ℕ → Pc P.Rep A → Type 0
  ThreadInv s i Pc.idle = Unit {0}
  ThreadInv s i (Pc.built n) = s.place n ≡ Place.held i
  ThreadInv s i (Pc.pushing n old) = (s.place n ≡ Place.held i) × (P.get_ptr old < P.ptr_limit)
  ThreadInv s i (Pc.linked n old) =
      (s.place n ≡ Place.held i) × (P.get_ptr (s.cells n).next ≡ P.get_ptr old)
  ThreadInv s i (Pc.popping old) = Seen s old
  ThreadInv s i (Pc.unlinking old q) =
      Seen s old × (P.get_tag old ≡ s.pops → q ≡ P.get_ptr (s.cells (P.get_ptr old)).next)
  ThreadInv s i (Pc.taken a due) = (s.place a ≡ Place.held i) × ((s.cells a).value ≡ due)
  ThreadInv s i (Pc.fetched a v due) = (s.place a ≡ Place.held i) × (v ≡ due)

  -- What holds of the stack between any two steps; `nodes` are those on it, from the top.
  pub record SharedInv (s : Shared P.Rep A) (nodes : List ℕ) : Type 0 where
    pub links : Links P s.cells (P.get_ptr s.tos) nodes
    pub on_stack : (b : ℕ) → 0 < occurrences b nodes → s.place b ≡ Place.stacked
    pub once : (b : ℕ) → occurrences b nodes ≤ 1
    pub replays : Replays s.log (contents P s.cells nodes)
    pub null_outside : s.place null ≡ Place.outside
    pub lt_limit : (b : ℕ) → s.place b ≢ Place.outside → b < P.ptr_limit
    pub tag : P.get_tag s.tos ≡ s.pops

  -- What thread `i` leaves as it was: the nodes in the hands of the others, and the nodes on the
  -- stack for as long as none has been taken off.
  pub record Frame (i : ℕ) (s t : Shared P.Rep A) : Type 0 where
    pub others :
        (b j : ℕ)
        → j ≢ i
        → s.place b ≡ Place.held j
        → (t.place b ≡ Place.held j) × (t.cells b ≡ s.cells b)
    pub stack :
        (b : ℕ)
        → s.place b ≡ Place.stacked
        → t.pops ≡ s.pops
        → (t.place b ≡ Place.stacked) × (t.cells b ≡ s.cells b)
    pub pool : (b : ℕ) → s.place b ≢ Place.outside → t.place b ≢ Place.outside
    pub monotone : s.pops ≤ t.pops

  module _ {i : ℕ} {s t : Shared P.Rep A} (f : Frame i s t) where
    same_pops : {k : ℕ} → k ≤ s.pops → k ≡ t.pops → (k ≡ s.pops) × (t.pops ≡ s.pops)
    same_pops past e = (omega (arith, f.monotone, e), omega (arith, f.monotone, e))

    Frame-Seen : (old : P.Rep) → Seen s old → Seen t old
    Frame-Seen old seen = record {
      ne_null = seen.ne_null;
      inside = f.pool (P.get_ptr old) seen.inside;
      past = omega (arith, seen.past, f.monotone);
      there = λ e.
          let (now, kept) = same_pops seen.past e in
          (f.stack (P.get_ptr old) (seen.there now) kept).0;
    }

    -- The others keep what they know.
    pub Frame-ThreadInv : (j : ℕ) → j ≢ i → (p : Pc P.Rep A) → ThreadInv s j p → ThreadInv t j p
    Frame-ThreadInv j ne Pc.idle k = tt
    Frame-ThreadInv j ne (Pc.built n) k = (f.others n j ne k).0
    Frame-ThreadInv j ne (Pc.pushing n old) k = ((f.others n j ne k.0).0, k.1)
    Frame-ThreadInv j ne (Pc.linked n old) k =
        ((f.others n j ne k.0).0, rw (f.others n j ne k.0).1 k.1)
    Frame-ThreadInv j ne (Pc.popping old) k = Frame-Seen old k
    Frame-ThreadInv j ne (Pc.unlinking old q) k = (
      Frame-Seen old k.0,
      λ e.
          let (now, kept) = same_pops k.0.past e in
          rw (f.stack (P.get_ptr old) (k.0.there now) kept).1 (k.1 now),
    )
    Frame-ThreadInv j ne (Pc.taken a due) k =
        ((f.others a j ne k.0).0, rw (f.others a j ne k.0).1 k.1)
    Frame-ThreadInv j ne (Pc.fetched a v due) k = ((f.others a j ne k.0).0, k.1)
