-- ===== src/Fifo/Concurrent/Order.antt =====
-- First in, first out: the order in which the values leave the fifo.
use boost_lockfree.Prelude.{ℕ, ◌≡◌, refl, sym, ap, ◌∙◌, Bool, List, [], ◌∷◌, ◌++◌}
use mathlib.Core.List.{append_assoc}
use boost_lockfree.TaggedPtr.{TaggedPtrOps}
use boost_lockfree.Memory.{Node}
use boost_lockfree.Memory.Links.{Links, contents}
use boost_lockfree.Fifo.Concurrent.{Event, System, Reach}
use boost_lockfree.Fifo.Concurrent.Invariant.{Replays, fresh, enqueue, dequeue}
use boost_lockfree.Fifo.Concurrent.Preservation.{Window}
use boost_lockfree.Fifo.Concurrent.Runs.{IsPool}
use boost_lockfree.Fifo.Concurrent.Safety.{fifo_linearizable}

-- The values that went in and those that came out, in the order of the events; the log has the newest
-- first.
abbrev pub values_in : {A : Type 0} → List (Event A) → List A
values_in [] = []
values_in (Event.enqueued v ∷ es) = values_in es ++ v ∷ []
values_in (Event.dequeued v ∷ es) = values_in es

abbrev pub values_out : {A : Type 0} → List (Event A) → List A
values_out [] = []
values_out (Event.enqueued v ∷ es) = values_out es
values_out (Event.dequeued v ∷ es) = values_out es ++ v ∷ []

Replays-in_order :
    {A : Type 0} (es : List (Event A)) (xs : List A)
    → Replays es xs
    → values_in es ≡ values_out es ++ xs
Replays-in_order es xs fresh = refl
Replays-in_order es xs (enqueue {v} {es = before} {xs = ys} r) =
    ap (λ zs. zs ++ v ∷ []) (Replays-in_order before ys r)
    ∙ append_assoc (values_out before) ys (v ∷ [])
Replays-in_order es xs (dequeue {v} {es = before} r) =
    Replays-in_order before (v ∷ xs) r ∙ sym (append_assoc (values_out before) (v ∷ []) xs)

module _ (P : TaggedPtrOps) {A : Type 0} (pool : ℕ → Bool) (d : ℕ) (cells : ℕ → Node P.Rep A)
    (ok : IsPool P pool d) (s : System P.Rep A) (reached : Reach P pool d cells s)
    (window : Window P cells s.shared) where
  -- In every state that any number of threads reach, the values that went in are those that came
  -- out followed by those in the nodes after the dummy, in the same order: none is lost, doubled or
  -- overtaken. The tag of each link at the start and the number of writes that took a new tag since
  -- add up to less than there are tags; the pool and the first dummy are at addresses that a tagged
  -- pointer can hold, without null.
  pub fifo_in_order :
      (dummy : ℕ) × (nodes : List ℕ) × Links P s.shared.cells
        (P.get_ptr s.shared.head)
        (dummy ∷ nodes)
      × (values_in s.shared.log ≡ values_out s.shared.log ++ contents P s.shared.cells nodes)
  fifo_in_order =
      let (dummy, nodes, links, once, tail_in, replays) =
        fifo_linearizable P pool d cells ok s reached window in
      (dummy, nodes, links, Replays-in_order s.shared.log (contents P s.shared.cells nodes) replays)
