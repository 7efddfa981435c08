-- ===== src/Fifo/Concurrent.antt =====
-- boost/lockfree/fifo.hpp: any number of threads in `enqueue` and `dequeue` on one fifo, one access to
-- `head_`, to `tail_` or to a node at a time, interleaved in any order. The accesses are sequentially
-- consistent. The pool is a set of nodes: `construct` takes one of the free nodes out and builds it,
-- and `destruct` puts it back, each in one step.
pub mod Invariant
pub mod Frame
pub mod Preservation
pub mod Growth
pub mod Kept
pub mod Moves
pub mod Runs
pub mod Safety
pub mod Order
pub mod Fair
pub mod Alone
pub mod Examples
use boost_lockfree.Prelude.{ℕ, ◌+◌, ◌<◌, ◌≡◌, ◌≢◌, Bool, true, false, if◌then◌else◌, List, [], ◌∷◌}
use boost_lockfree.TaggedPtr.{TaggedPtrOps}
use boost_lockfree.Memory.{Node, null}
use boost_lockfree.Memory.Links.{update, set_link}

-- Where a node is: not of the pool, free, in the hands of a thread, or in the queue, of which the
-- first node is the dummy.
pub data Place : Type 0 where
  outside : Place
  free : Place
  held : (i : ℕ) → Place
  queued : Place

-- What the operations did to the queue at the moment that they took effect.
pub data Event (A : Type 0) : Type 0 where
  enqueued : A → Event A
  dequeued : A → Event A

-- What all threads see; the nodes are never given back while the fifo lives. The places, the number
-- of writes that took a new tag so far and the events, newest first, are no part of the program.
pub record Shared (R A : Type 0) : Type 0 where
  pub head : R
  pub tail : R
  pub cells : ℕ → Node R A
  pub place : ℕ → Place
  pub ticks : ℕ
  pub log : List (Event A)

-- Where a thread stands, with its local variables. `seen` are the events up to its read of `next`, and
-- `due` is the value that the event of its `dequeue` says.
pub data Pc (R A : Type 0) : Type 0 where
  idle : Pc R A
  built : (n : ℕ) → Pc R A
  tail_loaded : (n : ℕ) (tail : R) → Pc R A
  next_loaded : (n : ℕ) (tail next : R) → Pc R A
  tail_checked : (n : ℕ) (tail next : R) → Pc R A
  linked : (n : ℕ) (tail : R) → Pc R A
  dequeuing : Pc R A
  head_read : (head : R) → Pc R A
  both_read : (head tail : R) → Pc R A
  next_read : (head tail next : R) (seen : List (Event A)) → Pc R A
  head_checked : (head tail next : R) (seen : List (Event A)) → Pc R A
  value_read : (head next : R) (ret : A) → Pc R A
  taken : (node : ℕ) (ret due : A) → Pc R A
  found_empty : (seen : List (Event A)) → Pc R A

pub record System (R A : Type 0) : Type 0 where
  pub shared : Shared R A
  pub pc : ℕ → Pc R A

module _ (P : TaggedPtrOps) {A : Type 0} where
  -- `tail_.compare_exchange_strong(tail, tagged_node_ptr(p, tail.get_tag() + 1))` where it succeeds.
  abbrev pub move_tail : P.Rep → ℕ → Shared P.Rep A → Shared P.Rep A
  move_tail tail p s = record s { tail = P.make p (P.get_tag tail + 1); ticks = s.ticks + 1 }

  -- `node(T const &)` at the node `n`, which the pool has given to thread `i`.
  abbrev pub build : ℕ → A → ℕ → Shared P.Rep A → Shared P.Rep A
  build i v n s = record s {
    cells =
        update s.cells n
          (record { next = P.make null (P.get_tag (s.cells n).next + 1); value = v });
    place = update s.place n (Place.held i);
    ticks = s.ticks + 1;
  }

  -- `tail->next.compare_exchange_weak(next, tagged_node_ptr(n, next.get_tag() + 1))` where it succeeds.
  abbrev pub link_node : ℕ → P.Rep → P.Rep → Shared P.Rep A → Shared P.Rep A
  link_node n tail next s = record s {
    cells = set_link P (P.get_ptr tail) (P.make n (P.get_tag next + 1)) s.cells;
    place = update s.place n Place.queued;
    ticks = s.ticks + 1;
    log = Event.enqueued (s.cells n).value ∷ s.log;
  }

  -- `head_.compare_exchange_weak(head, tagged_node_ptr(next_ptr, head.get_tag() + 1))` of thread `i`
  -- where it succeeds.
  abbrev pub take_off : ℕ → P.Rep → P.Rep → Shared P.Rep A → Shared P.Rep A
  take_off i head next s = record s {
    head = P.make (P.get_ptr next) (P.get_tag head + 1);
    place = update s.place (P.get_ptr head) (Place.held i);
    ticks = s.ticks + 1;
    log = Event.dequeued (s.cells (P.get_ptr next)).value ∷ s.log;
  }

  -- `destruct`: the pool puts a link of its own into the node and leaves its tag.
  abbrev pub give_back : ℕ → ℕ → Shared P.Rep A → Shared P.Rep A
  give_back a q s = record s {
    cells = set_link P a (P.set_ptr (s.cells a).next q) s.cells;
    place = update s.place a Place.free;
  }

  -- One step of thread `i`. A weak compare and swap may fail at any time, a strong one only where the
  -- value differs; the value that a failure puts into the expected variable is not used.
  pub data Move (i : ℕ) (s : Shared P.Rep A)
      : Pc P.Rep A → Shared P.Rep A → Pc P.Rep A → Type 0 where
    -- the pool has no node
    refused : Move i s Pc.idle s Pc.idle
    construct :
        (v : A) (n : ℕ) → s.place n ≡ Place.free → Move i s Pc.idle (build i v n s) (Pc.built n)
    load_tail : {n : ℕ} → Move i s (Pc.built n) s (Pc.tail_loaded n s.tail)
    load_next :
        {n : ℕ} {tail : P.Rep}
        → Move i s (Pc.tail_loaded n tail) s (Pc.next_loaded n tail (s.cells (P.get_ptr tail)).next)
    check_tail :
        {n : ℕ} {tail next : P.Rep}
        → P.equal tail s.tail ≡ true
        → Move i s (Pc.next_loaded n tail next) s (Pc.tail_checked n tail next)
    tail_changed :
        {n : ℕ} {tail next : P.Rep}
        → P.equal tail s.tail ≡ false
        → Move i s (Pc.next_loaded n tail next) s (Pc.built n)
    link :
        {n : ℕ} {tail next : P.Rep}
        → P.get_ptr next ≡ null
        → P.equal (s.cells (P.get_ptr tail)).next next ≡ true
        → Move i s (Pc.tail_checked n tail next) (link_node n tail next s) (Pc.linked n tail)
    link_failed :
        {n : ℕ} {tail next : P.Rep}
        → P.get_ptr next ≡ null
        → Move i s (Pc.tail_checked n tail next) s (Pc.built n)
    help :
        {n : ℕ} {tail next : P.Rep}
        → P.get_ptr next ≢ null
        → P.equal s.tail tail ≡ true
        → Move i s (Pc.tail_checked n tail next) (move_tail tail (P.get_ptr next) s) (Pc.built n)
    help_failed :
        {n : ℕ} {tail next : P.Rep}
        → P.get_ptr next ≢ null
        → P.equal s.tail tail ≡ false
        → Move i s (Pc.tail_checked n tail next) s (Pc.built n)
    swing :
        {n : ℕ} {tail : P.Rep}
        → P.equal s.tail tail ≡ true
        → Move i s (Pc.linked n tail) (move_tail tail n s) Pc.idle
    swing_failed :
        {n : ℕ} {tail : P.Rep} → P.equal s.tail tail ≡ false → Move i s (Pc.linked n tail) s Pc.idle
    call_dequeue : Move i s Pc.idle s Pc.dequeuing
    read_head : Move i s Pc.dequeuing s (Pc.head_read s.head)
    read_tail : {head : P.Rep} → Move i s (Pc.head_read head) s (Pc.both_read head s.tail)
    read_next :
        {head tail : P.Rep}
        → Move i s
            (Pc.both_read head tail)
            s
            (Pc.next_read head tail (s.cells (P.get_ptr head)).next s.log)
    check_head :
        {head tail next : P.Rep} {seen : List (Event A)}
        → P.equal head s.head ≡ true
        → Move i s (Pc.next_read head tail next seen) s (Pc.head_checked head tail next seen)
    head_changed :
        {head tail next : P.Rep} {seen : List (Event A)}
        → P.equal head s.head ≡ false
        → Move i s (Pc.next_read head tail next seen) s Pc.dequeuing
    return_false :
        {head tail next : P.Rep} {seen : List (Event A)}
        → P.get_ptr head ≡ P.get_ptr tail
        → P.get_ptr next ≡ null
        → Move i s (Pc.head_checked head tail next seen) s (Pc.found_empty seen)
    advance_tail :
        {head tail next : P.Rep} {seen : List (Event A)}
        → P.get_ptr head ≡ P.get_ptr tail
        → P.get_ptr next ≢ null
        → P.equal s.tail tail ≡ true
        → Move i s
            (Pc.head_checked head tail next seen)
            (move_tail tail (P.get_ptr next) s)
            Pc.dequeuing
    advance_failed :
        {head tail next : P.Rep} {seen : List (Event A)}
        → P.get_ptr head ≡ P.get_ptr tail
        → P.get_ptr next ≢ null
        → P.equal s.tail tail ≡ false
        → Move i s (Pc.head_checked head tail next seen) s Pc.dequeuing
    null_seen :
        {head tail next : P.Rep} {seen : List (Event A)}
        → P.get_ptr head ≢ P.get_ptr tail
        → P.get_ptr next ≡ null
        → Move i s (Pc.head_checked head tail next seen) s Pc.dequeuing
    read_value :
        {head tail next : P.Rep} {seen : List (Event A)}
        → P.get_ptr head ≢ P.get_ptr tail
        → P.get_ptr next ≢ null
        → Move i s
            (Pc.head_checked head tail next seen)
            s
            (Pc.value_read head next (s.cells (P.get_ptr next)).value)
    dequeue_done :
        {head next : P.Rep} {ret : A}
        → P.equal s.head head ≡ true
        → Move i s
            (Pc.value_read head next ret)
            (take_off i head next s)
            (Pc.taken (P.get_ptr head) ret (s.cells (P.get_ptr next)).value)
    dequeue_failed :
        {head next : P.Rep} {ret : A} → Move i s (Pc.value_read head next ret) s Pc.dequeuing
    destruct :
        {a : ℕ} {ret due : A} (q : ℕ)
        → q < P.ptr_limit
        → Move i s (Pc.taken a ret due) (give_back a q s) Pc.idle
    return_empty : {seen : List (Event A)} → Move i s (Pc.found_empty seen) s Pc.idle

  pub data Step (s : System P.Rep A) : System P.Rep A → Type 0 where
    pick :
        (i : ℕ) {m : Shared P.Rep A} {p : Pc P.Rep A}
        → Move i s.shared (s.pc i) m p
        → Step s (record { shared = m; pc = update s.pc i p })

  -- A fresh fifo with the dummy node `d`, and a pool of the nodes of which `pool` is true. Every thread
  -- is outside of it.
  abbrev pub start_at : (ℕ → Bool) → ℕ → (ℕ → Node P.Rep A) → System P.Rep A
  start_at pool d cells = record {
    shared = record {
      head = P.make d 0;
      tail = P.make d 0;
      cells = set_link P d (P.make null 0) cells;
      place = update (λ b. if pool b then Place.free else Place.outside) d Place.queued;
      ticks = 0;
      log = [];
    };
    pc = λ i. Pc.idle;
  }

  pub data Reach (pool : ℕ → Bool) (d : ℕ) (cells : ℕ → Node P.Rep A)
      : System P.Rep A → Type 0 where
    start : Reach pool d cells (start_at pool d cells)
    later : {s t : System P.Rep A} → Reach pool d cells s → Step s t → Reach pool d cells t
