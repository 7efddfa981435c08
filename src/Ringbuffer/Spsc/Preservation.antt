-- ===== src/Ringbuffer/Spsc/Preservation.antt =====
-- Every step of either thread keeps the invariant.
use mathlib.Core.List.{append_assoc}
use boost_lockfree.Prelude.{
  ℕ, ◌+◌, ◌^◌, ◌≤◌, ◌<◌, ◌≡◌, ◌≢◌, refl, sym, ap, ◌∙◌, arith, false, List, [], ◌∷◌, ◌++◌, ok,
}
use boost_lockfree.Array.{update}
use boost_lockfree.Ringbuffer.{next_index, is_empty}
use boost_lockfree.Ringbuffer.Bounds.{used, wrap}
use boost_lockfree.Ringbuffer.Spsc.{
  Shared, Producer, Consumer, Produce, Consume, System, Step, Reach, produce, consume, start, later,
}
use boost_lockfree.Ringbuffer.Spsc.Invariant.{
  held, ProducerInv, ConsumerInv, SharedInv, Inv, next-eq, held-update, held-publish, held-release,
}

module _ {A : Type 0} (m : ℕ) where
  -- The consumer does not notice a write to a free place,
  put-ConsumerInv :
      (s : Shared A) (t : A) (c : Consumer A)
      → SharedInv m s
      → ConsumerInv m s c
      → ConsumerInv m (record s { cells = update s.cells s.write_index t }) c
  put-ConsumerInv s t Consumer.idle i k = tt
  put-ConsumerInv s t (Consumer.loaded w) i k = k
  put-ConsumerInv s t (Consumer.indexed w r) i k = k
  put-ConsumerInv s t (Consumer.fetched v r) i k = ground arith

  -- nor that the write index moves on;
  publish-ConsumerInv :
      (s : Shared A) (next : ℕ) (l : List A) (c : Consumer A)
      → SharedInv m s
      → next ≡ wrap m (s.write_index + 1)
      → used s.write_index s.read_index m + 1 < m
      → ConsumerInv m s c
      → ConsumerInv m (record s { write_index = next; sent = l }) c
  publish-ConsumerInv s next l Consumer.idle i e free k = tt
  publish-ConsumerInv s next l (Consumer.loaded w) i e free k = ground arith
  publish-ConsumerInv s next l (Consumer.indexed w r) i e free k = ground arith
  publish-ConsumerInv s next l (Consumer.fetched v r) i e free k = ground arith

  -- and the producer does not notice that the read index moves on.
  release-ProducerInv :
      (s : Shared A) (next : ℕ) (l : List A) (p : Producer A)
      → SharedInv m s
      → next ≡ wrap m (s.read_index + 1)
      → s.write_index ≢ s.read_index
      → ProducerInv m s p
      → ProducerInv m (record s { read_index = next; received = l }) p
  release-ProducerInv s next l Producer.idle i e filled k = tt
  release-ProducerInv s next l (Producer.loaded t w) i e filled k = k
  release-ProducerInv s next l (Producer.checked t w next') i e filled k = ground arith
  release-ProducerInv s next l (Producer.written t next') i e filled k = ground arith

  put-Inv :
      (s : Shared A) (t : A) (w next : ℕ) (c : Consumer A)
      → Inv m s (Producer.checked t w next) c
      → Inv m (record s { cells = update s.cells w t }) (Producer.written t next) c
  put-Inv s t w next c i = rw i.producer.0 (record {
    shared = record {
      write_in = i.shared.write_in;
      read_in = i.shared.read_in;
      small = i.shared.small;
      fifo = rw (held-update m s t i.shared i.producer.2) i.shared.fifo;
    };
    producer = (ground arith, i.producer.1, i.producer.2);
    consumer = put-ConsumerInv s t c i.shared i.consumer;
  })

  publish-Inv :
      (s : Shared A) (t : A) (next : ℕ) (c : Consumer A)
      → Inv m s (Producer.written t next) c
      → Inv m (record s { write_index = next; sent = s.sent ++ t ∷ [] }) Producer.idle c
  publish-Inv s t next c i = record {
    shared = record {
      write_in = ground arith;
      read_in = i.shared.read_in;
      small = i.shared.small;
      fifo =
          ap (λ l. l ++ t ∷ []) i.shared.fifo
          ∙ append_assoc s.received (held m s) (t ∷ [])
          ∙ ap (λ l. s.received ++ l) (sym appended);
    };
    producer = tt;
    consumer =
        publish-ConsumerInv s next (s.sent ++ t ∷ []) c i.shared i.producer.1 i.producer.2
          i.consumer;
  }
    where
      appended : held m (record s { write_index = next }) ≡ held m s ++ t ∷ []
      appended =
          held-publish m s next i.shared (refl, i.producer.1, i.producer.2)
          ∙ ap (λ x. held m s ++ x ∷ []) i.producer.0

  release-Inv :
      (s : Shared A) (v : A) (r next : ℕ) (p : Producer A)
      → next_index r m ≡ ok next
      → Inv m s p (Consumer.fetched v r)
      → Inv m (record s { read_index = next; received = s.received ++ v ∷ [] }) p Consumer.idle
  release-Inv s v r next p e i = record {
    shared = record {
      write_in = i.shared.write_in;
      read_in = rw moved (ground arith);
      small = i.shared.small;
      fifo =
          i.shared.fifo
          ∙ ap (λ l. s.received ++ l) (held-release m s next i.shared moved i.consumer.2)
          ∙ ap (λ x. s.received ++ x ∷ held m (record s { read_index = next })) (sym i.consumer.1)
          ∙ sym (append_assoc s.received (v ∷ []) (held m (record s { read_index = next })));
    };
    producer =
        release-ProducerInv s next (s.received ++ v ∷ []) p i.shared moved i.consumer.2 i.producer;
    consumer = tt;
  }
    where
      moved : next ≡ wrap m (s.read_index + 1)
      moved =
          rw (← i.consumer.0) (next-eq m r next e (rw i.consumer.0 i.shared.read_in) i.shared.small)

  room-producer :
      (s : Shared A) (w next : ℕ)
      → SharedInv m s
      → w ≡ s.write_index
      → next_index w m ≡ ok next
      → next ≢ s.read_index
      → (next ≡ wrap m (s.write_index + 1)) × (used s.write_index s.read_index m + 1 < m)
  room-producer s w next i own e differ = (moved, ground (arith, moved))
    where
      moved : next ≡ wrap m (s.write_index + 1)
      moved = rw (← own) (next-eq m w next e (rw own i.write_in) i.small)

  -- Every step of the producer keeps the invariant.
  pub Produce-Inv :
      {s s' : Shared A} {p p' : Producer A} {c : Consumer A}
      → Produce m s p s' p'
      → Inv m s p c
      → Inv m s' p' c
  Produce-Inv (Produce.load_write t) i = record {
    shared = i.shared;
    producer = refl;
    consumer = i.consumer;
  }
  Produce-Inv (Produce.full e h) i = record {
    shared = i.shared;
    producer = tt;
    consumer = i.consumer;
  }
  Produce-Inv {s} (Produce.room {w} {next} e h) i = record {
    shared = i.shared;
    producer =
        let (moved, free) = room-producer s w next i.shared i.producer e h in
        (i.producer, moved, free);
    consumer = i.consumer;
  }
  Produce-Inv {s} {c} (Produce.put {t} {w} {next}) i = put-Inv s t w next c i
  Produce-Inv {s} {c} (Produce.publish {t} {next}) i = publish-Inv s t next c i

  fetched-filled :
      (s : Shared A) (w r : ℕ)
      → SharedInv m s
      → ConsumerInv m s (Consumer.indexed w r)
      → is_empty w r ≡ false
      → s.write_index ≢ s.read_index
  unfolding is_empty
  fetched-filled s w r i k e = ground arith

  -- Every step of the consumer keeps the invariant.
  pub Consume-Inv :
      {s s' : Shared A} {p : Producer A} {c c' : Consumer A}
      → Consume m s c s' c'
      → Inv m s p c
      → Inv m s' p c'
  Consume-Inv Consume.load_write i = record {
    shared = i.shared;
    producer = i.producer;
    consumer = (i.shared.write_in, omega arith);
  }
  Consume-Inv Consume.load_read i = record {
    shared = i.shared;
    producer = i.producer;
    consumer = (i.consumer.0, i.consumer.1, refl);
  }
  Consume-Inv (Consume.drained e) i = record {
    shared = i.shared;
    producer = i.producer;
    consumer = tt;
  }
  Consume-Inv {s} (Consume.fetch {w} {r} e) i = record {
    shared = i.shared;
    producer = i.producer;
    consumer = (i.consumer.2, ap s.cells i.consumer.2, fetched-filled s w r i.shared i.consumer e);
  }
  Consume-Inv {s} {p} (Consume.release {v} {r} {next} e) i = release-Inv s v r next p e i

  Step-Inv :
      {s t : System A}
      → Step m s t
      → Inv m s.shared s.producer s.consumer
      → Inv m t.shared t.producer t.consumer
  Step-Inv (produce mv) i = Produce-Inv mv i
  Step-Inv (consume mv) i = Consume-Inv mv i

  -- The invariant holds in every state that the two threads can reach.
  pub Reach-Inv :
      {cells : ℕ → A} {s : System A}
      → 0 < m
      → m ≤ 2 ^ 63
      → Reach m cells s
      → Inv m s.shared s.producer s.consumer
  Reach-Inv {cells} some_room small start = record {
    shared = record { write_in = some_room; read_in = some_room; small = small; fifo = refl };
    producer = tt;
    consumer = tt;
  }
  Reach-Inv some_room small (later r st) = Step-Inv st (Reach-Inv some_room small r)
