-- ===== src/Fifo/Concurrent/Invariant.antt =====
-- The invariant of the threads on the fifo, and what the steps of one thread leave to the others.
use boost_lockfree.Prelude.{ℕ, ◌+◌, ◌≤◌, ◌<◌, ◌≡◌, ◌≢◌, ◌⊎◌, List, [], ◌∷◌, ◌++◌}
use boost_lockfree.TaggedPtr.{TaggedPtrOps}
use boost_lockfree.Memory.{Node, null}
use boost_lockfree.Memory.Links.{occurrences, Links, contents}
use boost_lockfree.Fifo.Concurrent.{Place, Event, Shared, Pc}

-- A queue of values on which the events happen one after another.
pub data Replays {A : Type 0} : List (Event A) → List A → Type 0 where
  fresh : Replays [] []
  enqueue :
      {v : A} {es : List (Event A)} {xs : List A}
      → Replays es xs
      → Replays (Event.enqueued v ∷ es) (xs ++ v ∷ [])
  dequeue :
      {v : A} {es : List (Event A)} {xs : List A}
      → Replays es (v ∷ xs)
      → Replays (Event.dequeued v ∷ es) xs

-- An atomic that held `old` and now holds `now` still holds it as long as it has the same tag.
abbrev pub Behind : (P : TaggedPtrOps) → P.Rep → P.Rep → Type 0
Behind P old now = (P.get_tag old ≤ P.get_tag now) × (P.get_tag old ≡ P.get_tag now → now ≡ old)

module _ (P : TaggedPtrOps) {A : Type 0} where
  -- What the links of the node at the end of the queue looked like when a thread read its `next`.
  abbrev pub EndSeen : Shared P.Rep A → P.Rep → P.Rep → Type 0
  EndSeen s tail next =
      P.get_ptr next ≡ null
      → (P.get_tag next ≤ P.get_tag (s.cells (P.get_ptr tail)).next)
        × (P.get_tag next ≡ P.get_tag (s.cells (P.get_ptr tail)).next
            → (s.place (P.get_ptr tail) ≡ Place.queued)
              × (P.get_ptr (s.cells (P.get_ptr tail)).next ≡ null)
              × (P.get_ptr s.tail ≡ P.get_ptr tail))

  -- The node after `at` is the one that `next` leads to.
  abbrev pub Leads : Shared P.Rep A → P.Rep → P.Rep → Type 0
  Leads s at next = P.get_ptr next ≢ null → P.get_ptr (s.cells (P.get_ptr at)).next ≡ P.get_ptr next

  -- What `dequeue` knows of the `head` and the `tail` that it has read.
  pub record Ends (s : Shared P.Rep A) (head tail : P.Rep) : Type 0 where
    pub head_behind : Behind P head s.head
    pub tail_behind : Behind P tail s.tail
    pub apart : s.head ≡ head → P.get_ptr tail ≢ P.get_ptr head → P.get_ptr s.tail ≢ P.get_ptr head

  -- What it knows after it has read `next` too.
  pub record Read (s : Shared P.Rep A) (head tail next : P.Rep) : Type 0 where
    pub ends : Ends s head tail
    pub first : s.head ≡ head → Leads s head next
    pub last : s.tail ≡ tail → P.get_ptr head ≡ P.get_ptr tail → Leads s tail next

  abbrev pub ThreadInv : Shared P.Rep A → ℕ → Pc P.Rep A → Type 0
  ThreadInv s i Pc.idle = Unit {0}
  ThreadInv s i (Pc.built n) = (s.place n ≡ Place.held i) × (P.get_ptr (s.cells n).next ≡ null)
  ThreadInv s i (Pc.tail_loaded n tail) =
      (s.place n ≡ Place.held i) × (P.get_ptr (s.cells n).next ≡ null) × Behind P tail s.tail
  ThreadInv s i (Pc.next_loaded n tail next) =
      (s.place n ≡ Place.held i)
      × (P.get_ptr (s.cells n).next ≡ null)
      × Behind P tail s.tail
      × (s.tail ≡ tail → EndSeen s tail next)
      × (s.tail ≡ tail → Leads s tail next)
  ThreadInv s i (Pc.tail_checked n tail next) =
      (s.place n ≡ Place.held i)
      × (P.get_ptr (s.cells n).next ≡ null)
      × Behind P tail s.tail
      × EndSeen s tail next
      × (s.tail ≡ tail → Leads s tail next)
  ThreadInv s i (Pc.linked n tail) =
      Behind P tail s.tail
      × (n ≢ null)
      × (s.tail ≡ tail → P.get_ptr (s.cells (P.get_ptr tail)).next ≡ n)
  ThreadInv s i Pc.dequeuing = Unit {0}
  ThreadInv s i (Pc.head_read head) = Behind P head s.head
  ThreadInv s i (Pc.both_read head tail) = Ends s head tail
  ThreadInv s i (Pc.next_read head tail next seen) =
      Read s head tail next × (s.head ≡ head → P.get_ptr next ≡ null → Replays seen [])
  ThreadInv s i (Pc.head_checked head tail next seen) =
      Read s head tail next × (P.get_ptr next ≡ null → Replays seen [])
  ThreadInv s i (Pc.value_read head next ret) =
      Behind P head s.head
      × (P.get_ptr next ≢ null)
      × (s.head ≡ head
          → (P.get_ptr s.tail ≢ P.get_ptr head)
            × (P.get_ptr (s.cells (P.get_ptr head)).next ≡ P.get_ptr next)
            × (s.place (P.get_ptr next) ≡ Place.queued)
            × ((s.cells (P.get_ptr next)).value ≡ ret))
  ThreadInv s i (Pc.taken a ret due) = (s.place a ≡ Place.held i) × (ret ≡ due)
  ThreadInv s i (Pc.found_empty seen) = Replays seen []

  -- What holds of the fifo between any two steps; `nodes` are those in the queue after the dummy `d`.
  -- `cells` are the links at the start.
  pub record SharedInv (cells : ℕ → Node P.Rep A) (s : Shared P.Rep A) (d : ℕ) (nodes : List ℕ)
      : Type 0 where
    pub links : Links P s.cells (P.get_ptr s.head) (d ∷ nodes)
    pub in_queue : (b : ℕ) → 0 < occurrences b (d ∷ nodes) → s.place b ≡ Place.queued
    pub all_in : (b : ℕ) → s.place b ≡ Place.queued → 0 < occurrences b (d ∷ nodes)
    pub once : (b : ℕ) → occurrences b (d ∷ nodes) ≤ 1
    pub tail_in : s.place (P.get_ptr s.tail) ≡ Place.queued
    -- at most one node is behind that of the tail
    pub lag :
        P.get_ptr (s.cells (P.get_ptr s.tail)).next ≢ null
        → P.get_ptr (s.cells (P.get_ptr (s.cells (P.get_ptr s.tail)).next)).next ≡ null
    pub replays : Replays s.log (contents P s.cells nodes)
    pub null_outside : s.place null ≡ Place.outside
    pub lt_limit : (b : ℕ) → s.place b ≢ Place.outside → b < P.ptr_limit
    pub head_tag : P.get_tag s.head ≤ s.ticks
    pub tail_tag : P.get_tag s.tail ≤ s.ticks
    pub next_tag : (b : ℕ) → P.get_tag (s.cells b).next ≤ P.get_tag (cells b).next + s.ticks

  -- What thread `i` leaves as it was, or may only move on.
  pub record Frame (i : ℕ) (s t : Shared P.Rep A) : Type 0 where
    pub others :
        (b j : ℕ)
        → j ≢ i
        → s.place b ≡ Place.held j
        → (t.place b ≡ Place.held j) × (t.cells b ≡ s.cells b)
    pub head_moves : (t.head ≡ s.head) ⊎ (P.get_tag s.head < P.get_tag t.head)
    pub tail_moves : (t.tail ≡ s.tail) ⊎ (P.get_tag s.tail < P.get_tag t.tail)
    pub head_in : s.place (P.get_ptr s.head) ≡ Place.queued
    pub tail_in : s.place (P.get_ptr s.tail) ≡ Place.queued
    pub tail_in' : t.place (P.get_ptr t.tail) ≡ Place.queued
    -- no node leaves the queue while the head stays
    pub stays : t.head ≡ s.head → (b : ℕ) → s.place b ≡ Place.queued → t.place b ≡ Place.queued
    pub value : (b : ℕ) → s.place b ≡ Place.queued → (t.cells b).value ≡ (s.cells b).value
    pub next :
        (b : ℕ)
        → s.place b ≡ Place.queued
        → t.place b ≡ Place.queued
        → P.get_ptr (s.cells b).next ≢ null
        → P.get_ptr (t.cells b).next ≡ P.get_ptr (s.cells b).next
    pub tag : (b : ℕ) → P.get_tag (s.cells b).next ≤ P.get_tag (t.cells b).next
    -- the last node stays the last as long as its `next` keeps its tag
    pub last :
        (b : ℕ)
        → s.place b ≡ Place.queued
        → P.get_ptr (s.cells b).next ≡ null
        → P.get_tag (s.cells b).next ≡ P.get_tag (t.cells b).next
        → (t.place b ≡ Place.queued)
          × (P.get_ptr (t.cells b).next ≡ null)
          × (P.get_ptr s.tail ≡ b → P.get_ptr t.tail ≡ b)
    pub apart :
        t.head ≡ s.head → P.get_ptr s.tail ≢ P.get_ptr s.head → P.get_ptr t.tail ≢ P.get_ptr t.head
