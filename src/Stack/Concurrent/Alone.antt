-- ===== src/Stack/Concurrent/Alone.antt =====
-- A thread on the stack that runs alone brings its operation to take effect.
use boost_lockfree.Prelude.{ℕ, ◌≡◌, ◌⊎◌, Bool, true, false, ◌==◌, if◌then◌else◌, List, ◌∷◌, ◌+◌}
use boost_lockfree.Progress
use boost_lockfree.TaggedPtr.{TaggedPtrOps}
use boost_lockfree.Memory.{null}
use boost_lockfree.Memory.Links.{set_link, update}
use boost_lockfree.Stack.Concurrent.{
  Place, Event, Shared, Pc, Move, push_again, pop_again, pop_empty,
}

module _ (P : TaggedPtrOps) {A : Type 0} (i : ℕ) where
  -- A step in which a compare and swap fails only where the value differs.
  abbrev pub Fair :
      {s : Shared P.Rep A} {p : Pc P.Rep A} {t : Shared P.Rep A} {q : Pc P.Rep A}
      → Move P i s p t q
      → Type 0
  Fair {s} (push_again {n} {old}) = P.equal s.tos old ≡ false
  Fair {s} (pop_again {old} {q} h) = P.equal s.tos old ≡ false
  Fair {s} (pop_empty {old} {q} h) = P.equal s.tos old ≡ false
  Fair m = Unit {0}

  abbrev pub Next : Shared P.Rep A → Pc P.Rep A → Shared P.Rep A → Pc P.Rep A → Type 0
  Next s p t q = (m : Move P i s p t q) × Fair m

  -- What a thread that goes on alone cannot avoid, in so many fair steps.
  abbrev pub Inevitable :
      (Shared P.Rep A → Pc P.Rep A → Type 0) → ℕ → Shared P.Rep A → Pc P.Rep A → Type 0
  Inevitable = Progress.Inevitable Next

  -- A thread is between the first access of an operation and the moment that it takes effect.
  abbrev pub is_trying : Pc P.Rep A → Bool
  is_trying Pc.idle = false
  is_trying (Pc.taken a due) = false
  is_trying (Pc.fetched a v due) = false
  is_trying p = true

  -- The next step of a thread that tries.
  abbrev advance : Shared P.Rep A → Pc P.Rep A → Shared P.Rep A × Pc P.Rep A
  advance s (Pc.built n) = (s, Pc.pushing n s.tos)
  advance s (Pc.pushing n old) = (
    record s { cells = set_link P n (P.set_ptr (s.cells n).next (P.get_ptr old)) s.cells },
    Pc.linked n old,
  )
  advance s (Pc.linked n old) =
      if P.equal s.tos old
      then (
        record s {
          tos = P.make n (P.get_tag old);
          place = update s.place n Place.stacked;
          log = Event.pushed (s.cells n).value ∷ s.log;
        },
        Pc.idle,
      )
      else (s, Pc.pushing n s.tos)
  advance s (Pc.popping old) = (s, Pc.unlinking old (P.get_ptr (s.cells (P.get_ptr old)).next))
  advance s (Pc.unlinking old q) =
      if P.equal s.tos old
      then (
        record s {
          tos = P.make q (P.get_tag old + 1);
          place = update s.place (P.get_ptr old) (Place.held i);
          pops = s.pops + 1;
          log = Event.popped (s.cells (P.get_ptr old)).value ∷ s.log;
        },
        Pc.taken (P.get_ptr old) (s.cells (P.get_ptr old)).value,
      )
      else if P.get_ptr s.tos == null
      then (record s { log = Event.was_empty ∷ s.log }, Pc.idle)
      else (s, Pc.popping s.tos)
  advance s p = (s, p)

-- What an operation comes to that a thread at `p` tries in `s`: its node is on top, with the event; or
-- the node on top is in its hands, with the event; or there was none.
abbrev pub Promised :
    (P : TaggedPtrOps) {A : Type 0}
    → Shared P.Rep A
    → Pc P.Rep A
    → Shared P.Rep A
    → Pc P.Rep A
    → Type 0
Promised P s (Pc.built n) t q = (q ≡ Pc.idle) × (t.log ≡ Event.pushed (s.cells n).value ∷ s.log)
Promised P s (Pc.pushing n old) t q =
    (q ≡ Pc.idle) × (t.log ≡ Event.pushed (s.cells n).value ∷ s.log)
Promised P s (Pc.linked n old) t q =
    (q ≡ Pc.idle) × (t.log ≡ Event.pushed (s.cells n).value ∷ s.log)
Promised P s p t q =
    ((q ≡ Pc.taken (P.get_ptr s.tos) (s.cells (P.get_ptr s.tos)).value)
      × (t.log ≡ Event.popped (s.cells (P.get_ptr s.tos)).value ∷ s.log))
    ⊎ ((P.get_ptr s.tos ≡ null) × (q ≡ Pc.idle) × (t.log ≡ Event.was_empty ∷ s.log))

module _ (P : TaggedPtrOps) {A : Type 0} (i : ℕ) where
  module _ (n : ℕ) (events : List (Event A)) (v : A) where
    abbrev Pushed : Shared P.Rep A → Pc P.Rep A → Type 0
    Pushed t q = (q ≡ Pc.idle) × (t.log ≡ Event.pushed v ∷ events)

  module _ (s : Shared P.Rep A) where
    abbrev Popped : Shared P.Rep A → Pc P.Rep A → Type 0
    Popped = Promised P s (Pc.popping s.tos)
