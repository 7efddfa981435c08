-- ===== src/Stack/Concurrent.antt =====
-- boost/lockfree/stack.hpp: any number of threads in `push` and `pop` on one stack, one access to
-- `tos` or to a node at a time, interleaved in any order. The accesses are sequentially consistent.
-- The pool is a set of nodes: `construct` takes one of the free nodes out, and `destruct` puts it
-- back, each in one step.
pub mod Invariant
pub mod Preservation
pub mod Moves
pub mod Safety
pub mod Alone
pub mod Examples
use boost_lockfree.Prelude.{ℕ, ◌+◌, ◌≡◌, ◌≢◌, Bool, true, false, ◌==◌, if◌then◌else◌, List, [], ◌∷◌}
use boost_lockfree.TaggedPtr.{TaggedPtrOps}
use boost_lockfree.Memory.{Node, null}
use boost_lockfree.Memory.Links.{update, set_value, set_link}

-- Where a node is: not of the pool, free, in the hands of a thread, or on the stack.
pub data Place : Type 0 where
  outside : Place
  free : Place
  held : (i : ℕ) → Place
  stacked : Place

-- What the operations did to the stack at the moment that they took effect.
pub data Event (A : Type 0) : Type 0 where
  pushed : A → Event A
  popped : A → Event A
  was_empty : Event A

-- What all threads see; the nodes are never given back while the stack lives. The places, the number
-- of nodes taken off so far and the events, newest first, are no part of the program.
pub record Shared (R A : Type 0) : Type 0 where
  pub tos : R
  pub cells : ℕ → Node R A
  pub place : ℕ → Place
  pub pops : ℕ
  pub log : List (Event A)

-- Where a thread stands, with its local variables; `due` is the value that the event says.
pub data Pc (R A : Type 0) : Type 0 where
  idle : Pc R A
  built : (newnode : ℕ) → Pc R A
  pushing : (newnode : ℕ) (old_tos : R) → Pc R A
  linked : (newnode : ℕ) (old_tos : R) → Pc R A
  popping : (old_tos : R) → Pc R A
  unlinking : (old_tos : R) (new_tos_ptr : ℕ) → Pc R A
  taken : (node : ℕ) (due : A) → Pc R A
  fetched : (node : ℕ) (ret due : A) → Pc R A

pub record System (R A : Type 0) : Type 0 where
  pub shared : Shared R A
  pub pc : ℕ → Pc R A

module _ (P : TaggedPtrOps) {A : Type 0} where
  -- One step of thread `i`. A `compare_exchange_weak` that fails, for whatever reason, has put what
  -- `tos` holds into `old_tos`. The pool may write any link into a node that it gets back.
  pub data Move (i : ℕ) (s : Shared P.Rep A)
      : Pc P.Rep A → Shared P.Rep A → Pc P.Rep A → Type 0 where
    -- the pool has no node
    refused : Move i s Pc.idle s Pc.idle
    construct :
        (v : A) (n : ℕ)
        → s.place n ≡ Place.free
        → Move i s Pc.idle
            (record s { cells = set_value P n v s.cells; place = update s.place n (Place.held i) })
            (Pc.built n)
    load_push : {n : ℕ} → Move i s (Pc.built n) s (Pc.pushing n s.tos)
    link :
        {n : ℕ} {old : P.Rep}
        → Move i s
            (Pc.pushing n old)
            (record s { cells = set_link P n (P.set_ptr (s.cells n).next (P.get_ptr old)) s.cells })
            (Pc.linked n old)
    push_done :
        {n : ℕ} {old : P.Rep}
        → P.equal s.tos old ≡ true
        → Move i s
            (Pc.linked n old)
            (record s {
              tos = P.make n (P.get_tag old);
              place = update s.place n Place.stacked;
              log = Event.pushed (s.cells n).value ∷ s.log;
            })
            Pc.idle
    push_again : {n : ℕ} {old : P.Rep} → Move i s (Pc.linked n old) s (Pc.pushing n s.tos)
    load_empty :
        P.get_ptr s.tos ≡ null
        → Move i s Pc.idle (record s { log = Event.was_empty ∷ s.log }) Pc.idle
    load_pop : P.get_ptr s.tos ≢ null → Move i s Pc.idle s (Pc.popping s.tos)
    read_next :
        {old : P.Rep}
        → Move i s (Pc.popping old) s (Pc.unlinking old (P.get_ptr (s.cells (P.get_ptr old)).next))
    pop_done :
        {old : P.Rep} {q : ℕ}
        → P.equal s.tos old ≡ true
        → Move i s
            (Pc.unlinking old q)
            (record s {
              tos = P.make q (P.get_tag old + 1);
              place = update s.place (P.get_ptr old) (Place.held i);
              pops = s.pops + 1;
              log = Event.popped (s.cells (P.get_ptr old)).value ∷ s.log;
            })
            (Pc.taken (P.get_ptr old) (s.cells (P.get_ptr old)).value)
    pop_again :
        {old : P.Rep} {q : ℕ}
        → P.get_ptr s.tos ≢ null
        → Move i s (Pc.unlinking old q) s (Pc.popping s.tos)
    pop_empty :
        {old : P.Rep} {q : ℕ}
        → P.get_ptr s.tos ≡ null
        → Move i s (Pc.unlinking old q) (record s { log = Event.was_empty ∷ s.log }) Pc.idle
    fetch : {a : ℕ} {due : A} → Move i s (Pc.taken a due) s (Pc.fetched a (s.cells a).value due)
    destruct :
        {a : ℕ} {v due : A} (r : P.Rep)
        → Move i s
            (Pc.fetched a v due)
            (record s { cells = set_link P a r s.cells; place = update s.place a Place.free })
            Pc.idle

  pub data Step (s : System P.Rep A) : System P.Rep A → Type 0 where
    pick :
        (i : ℕ) {m : Shared P.Rep A} {p : Pc P.Rep A}
        → Move i s.shared (s.pc i) m p
        → Step s (record { shared = m; pc = update s.pc i p })

  -- A fresh stack, with a pool of the nodes of which `pool` is true, and every thread outside of it.
  abbrev pub start_at : (ℕ → Bool) → (ℕ → Node P.Rep A) → System P.Rep A
  start_at pool cells = record {
    shared = record {
      tos = P.make null 0;
      cells = cells;
      place = λ b. if pool b then Place.free else Place.outside;
      pops = 0;
      log = [];
    };
    pc = λ i. Pc.idle;
  }

  pub data Reach (pool : ℕ → Bool) (cells : ℕ → Node P.Rep A) : System P.Rep A → Type 0 where
    start : Reach pool cells (start_at pool cells)
    later : {s t : System P.Rep A} → Reach pool cells s → Step s t → Reach pool cells t
