-- ===== src/Freelist/Concurrent.antt =====
-- boost/lockfree/detail/freelist.hpp: any number of threads in `allocate`, `deallocate` and `reserve`
-- on one pool, one access to `pool_` or to a node at a time, interleaved in any order. The accesses are
-- sequentially consistent. The clients of the pool are the rest of the program: any thread may write
-- anything to a node that has been handed out, and give back a node that has.
pub mod Invariant
pub mod Preservation
pub mod Moves
pub mod Safety
pub mod Refines
pub mod Examples
use boost_lockfree.Prelude.{ℕ, ◌+◌, ◌<◌, ◌≡◌, ◌≢◌, Bool, true, false, List, [], ◌∷◌}
use boost_lockfree.TaggedPtr.{TaggedPtrOps}
use boost_lockfree.Memory.{Node, null}
use boost_lockfree.Memory.Links.{update, set_link}

-- Where a node is: not yet of the allocator, in the pool, with an operation of a thread, or handed out.
pub data Place : Type 0 where
  outside : Place
  pooled : Place
  held : (i : ℕ) → Place
  out : Place

-- What the operations did to the pool at the moment that they took effect.
pub data Event : Type 0 where
  given : (n : ℕ) → Event
  taken : (n : ℕ) → Event
  was_empty : Event

-- What all threads see. The places, the number of nodes taken so far and the events, newest first, are
-- no part of the program.
pub record Shared (R A : Type 0) : Type 0 where
  pub pool : R
  pub cells : ℕ → Node R A
  pub place : ℕ → Place
  pub takes : ℕ
  pub log : List Event

-- Where a thread stands, with its local variables.
pub data Pc (R : Type 0) : Type 0 where
  idle : Pc R
  allocating : (old_pool : R) → Pc R
  unlinking : (old_pool : R) (new_pool_ptr : ℕ) → Pc R
  exhausted : Pc R
  returned : (node : ℕ) → Pc R
  giving : (n : ℕ) → Pc R
  deallocating : (n : ℕ) (old_pool : R) → Pc R
  linked : (n : ℕ) (old_pool : R) → Pc R

pub record System (R A : Type 0) : Type 0 where
  pub shared : Shared R A
  pub pc : ℕ → Pc R

module _ (P : TaggedPtrOps) {A : Type 0} (may_allocate : Bool) where
  -- One step of thread `i`. A `compare_exchange_weak` that fails, for whatever reason, has put what
  -- `pool_` holds into `old_pool`.
  pub data Move (i : ℕ) (s : Shared P.Rep A) : Pc P.Rep → Shared P.Rep A → Pc P.Rep → Type 0 where
    load_empty :
        P.get_ptr s.pool ≡ null
        → Move i s Pc.idle (record s { log = Event.was_empty ∷ s.log }) Pc.exhausted
    load_pool : P.get_ptr s.pool ≢ null → Move i s Pc.idle s (Pc.allocating s.pool)
    read_next :
        {old : P.Rep}
        → Move i s
            (Pc.allocating old)
            s
            (Pc.unlinking old (P.get_ptr (s.cells (P.get_ptr old)).next))
    take :
        {old : P.Rep} {q : ℕ}
        → P.equal s.pool old ≡ true
        → Move i s
            (Pc.unlinking old q)
            (record s {
              pool = P.make q (P.get_tag old + 1);
              place = update s.place (P.get_ptr old) (Place.held i);
              takes = s.takes + 1;
              log = Event.taken (P.get_ptr old) ∷ s.log;
            })
            (Pc.returned (P.get_ptr old))
    take_again :
        {old : P.Rep} {q : ℕ}
        → P.get_ptr s.pool ≢ null
        → Move i s (Pc.unlinking old q) s (Pc.allocating s.pool)
    take_empty :
        {old : P.Rep} {q : ℕ}
        → P.get_ptr s.pool ≡ null
        → Move i s (Pc.unlinking old q) (record s { log = Event.was_empty ∷ s.log }) Pc.exhausted
    return_null : may_allocate ≡ false → Move i s Pc.exhausted s Pc.idle
    -- `Alloc::allocate(1)` returns storage that was not in use.
    allocate_node :
        (n : ℕ)
        → may_allocate ≡ true
        → s.place n ≡ Place.outside
        → n ≢ null
        → n < P.ptr_limit
        → Move i s Pc.exhausted
            (record s { place = update s.place n (Place.held i) })
            (Pc.returned n)
    -- the node goes to the client
    hand_out :
        {n : ℕ} → Move i s (Pc.returned n) (record s { place = update s.place n Place.out }) Pc.idle
    -- a client writes to its node
    use_node :
        (n : ℕ) (node : Node P.Rep A)
        → s.place n ≡ Place.out
        → Move i s Pc.idle (record s { cells = update s.cells n node }) Pc.idle
    call_deallocate :
        (n : ℕ)
        → s.place n ≡ Place.out
        → Move i s Pc.idle (record s { place = update s.place n (Place.held i) }) (Pc.giving n)
    -- one round of `reserve`
    reserve_one :
        (n : ℕ)
        → s.place n ≡ Place.outside
        → n ≢ null
        → n < P.ptr_limit
        → Move i s Pc.idle (record s { place = update s.place n (Place.held i) }) (Pc.giving n)
    load_give : {n : ℕ} → Move i s (Pc.giving n) s (Pc.deallocating n s.pool)
    link :
        {n : ℕ} {old : P.Rep}
        → Move i s
            (Pc.deallocating n old)
            (record s { cells = set_link P n (P.set_ptr (s.cells n).next (P.get_ptr old)) s.cells })
            (Pc.linked n old)
    give :
        {n : ℕ} {old : P.Rep}
        → P.equal s.pool old ≡ true
        → Move i s
            (Pc.linked n old)
            (record s {
              pool = P.make n (P.get_tag old);
              place = update s.place n Place.pooled;
              log = Event.given n ∷ s.log;
            })
            Pc.idle
    give_again : {n : ℕ} {old : P.Rep} → Move i s (Pc.linked n old) s (Pc.deallocating n s.pool)

  pub data Step (s : System P.Rep A) : System P.Rep A → Type 0 where
    pick :
        (i : ℕ) {m : Shared P.Rep A} {p : Pc P.Rep}
        → Move i s.shared (s.pc i) m p
        → Step s (record { shared = m; pc = update s.pc i p })

  -- An empty pool, as the constructor makes it, and every thread outside of it.
  abbrev pub start_at : (ℕ → Node P.Rep A) → System P.Rep A
  start_at cells = record {
    shared = record {
      pool = P.make null 0;
      cells = cells;
      place = λ b. Place.outside;
      takes = 0;
      log = [];
    };
    pc = λ i. Pc.idle;
  }

  pub data Reach (cells : ℕ → Node P.Rep A) : System P.Rep A → Type 0 where
    start : Reach cells (start_at cells)
    later : {s t : System P.Rep A} → Reach cells s → Step s t → Reach cells t
