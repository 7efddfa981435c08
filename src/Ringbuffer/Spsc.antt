-- ===== src/Ringbuffer/Spsc.antt =====
-- One producer thread in `enqueue` and one consumer thread in `dequeue` on one ring buffer, one
-- shared access at a time, interleaved in any order. The accesses are sequentially consistent.
pub mod Invariant
pub mod Preservation
pub mod Safety
use boost_lockfree.Prelude.{ℕ, ◌≡◌, ◌≢◌, true, false, List, [], ◌∷◌, ◌++◌, ok}
use boost_lockfree.Array.{update}
use boost_lockfree.Ringbuffer.{next_index, is_empty}

-- What both threads see, with the elements whose `enqueue` has stored the write index and those
-- whose `dequeue` has stored the read index, in order.
pub record Shared (A : Type 0) : Type 0 where
  pub write_index : ℕ
  pub read_index : ℕ
  pub cells : ℕ → A
  pub sent : List A
  pub received : List A

-- Where `enqueue(T const &, T *, size_t)` stands, with its local variables.
pub data Producer (A : Type 0) : Type 0 where
  idle : Producer A
  loaded : (t : A) (write_index : ℕ) → Producer A
  checked : (t : A) (write_index next : ℕ) → Producer A
  written : (t : A) (next : ℕ) → Producer A

-- Where `dequeue(T &, T *, size_t)` stands.
pub data Consumer (A : Type 0) : Type 0 where
  idle : Consumer A
  loaded : (write_index : ℕ) → Consumer A
  indexed : (write_index read_index : ℕ) → Consumer A
  fetched : (ret : A) (read_index : ℕ) → Consumer A

module _ {A : Type 0} (max_size : ℕ) where
  -- One step of `enqueue`.
  pub data Produce (s : Shared A) : Producer A → Shared A → Producer A → Type 0 where
    load_write : (t : A) → Produce s Producer.idle s (Producer.loaded t s.write_index)
    full :
        {t : A} {w next : ℕ}
        → next_index w max_size ≡ ok next
        → next ≡ s.read_index
        → Produce s (Producer.loaded t w) s Producer.idle
    room :
        {t : A} {w next : ℕ}
        → next_index w max_size ≡ ok next
        → next ≢ s.read_index
        → Produce s (Producer.loaded t w) s (Producer.checked t w next)
    put :
        {t : A} {w next : ℕ}
        → Produce s
            (Producer.checked t w next)
            (record s { cells = update s.cells w t })
            (Producer.written t next)
    publish :
        {t : A} {next : ℕ}
        → Produce s
            (Producer.written t next)
            (record s { write_index = next; sent = s.sent ++ t ∷ [] })
            Producer.idle

  -- One step of `dequeue`.
  pub data Consume (s : Shared A) : Consumer A → Shared A → Consumer A → Type 0 where
    load_write : Consume s Consumer.idle s (Consumer.loaded s.write_index)
    load_read : {w : ℕ} → Consume s (Consumer.loaded w) s (Consumer.indexed w s.read_index)
    drained : {w r : ℕ} → is_empty w r ≡ true → Consume s (Consumer.indexed w r) s Consumer.idle
    fetch :
        {w r : ℕ}
        → is_empty w r ≡ false
        → Consume s (Consumer.indexed w r) s (Consumer.fetched (s.cells r) r)
    release :
        {v : A} {r next : ℕ}
        → next_index r max_size ≡ ok next
        → Consume s
            (Consumer.fetched v r)
            (record s { read_index = next; received = s.received ++ v ∷ [] })
            Consumer.idle

pub record System (A : Type 0) : Type 0 where
  pub shared : Shared A
  pub producer : Producer A
  pub consumer : Consumer A

pub data Step {A : Type 0} (max_size : ℕ) (s : System A) : System A → Type 0 where
  produce :
      {m : Shared A} {p : Producer A}
      → Produce max_size s.shared s.producer m p
      → Step max_size s (record { shared = m; producer = p; consumer = s.consumer })
  consume :
      {m : Shared A} {c : Consumer A}
      → Consume max_size s.shared s.consumer m c
      → Step max_size s (record { shared = m; producer = s.producer; consumer = c })

-- A fresh ring buffer over any cells, with both threads outside of it.
abbrev pub start_at : {A : Type 0} → (ℕ → A) → System A
start_at cells = record {
  shared = record { write_index = 0; read_index = 0; cells = cells; sent = []; received = [] };
  producer = Producer.idle;
  consumer = Consumer.idle;
}

pub data Reach {A : Type 0} (max_size : ℕ) (cells : ℕ → A) : System A → Type 0 where
  start : Reach max_size cells (start_at cells)
  later : {s t : System A} → Reach max_size cells s → Step max_size s t → Reach max_size cells t
