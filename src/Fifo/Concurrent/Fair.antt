-- ===== src/Fifo/Concurrent/Fair.antt =====
-- The steps of a thread on the fifo that runs alone: what its next step is, and what it cannot avoid.
use boost_lockfree.Prelude.{
  is_eq, not_eq, ℕ, suc, ◌≡◌, refl, arith, Bool, true, false, ◌==◌, if◌then◌else◌,
}
use boost_lockfree.Progress
use boost_lockfree.TaggedPtr.{TaggedPtrOps}
use boost_lockfree.Memory.{null}
use boost_lockfree.Fifo.Concurrent.{
  Shared, Pc, Move, move_tail, link_node, take_off, refused, construct, load_tail, load_next,
  check_tail, tail_changed, link, link_failed, help, help_failed, swing, swing_failed, call_dequeue,
  read_head, read_tail, read_next, check_head, head_changed, return_false, advance_tail,
  advance_failed, null_seen, read_value, dequeue_done, dequeue_failed, destruct, return_empty,
}

module _ (P : TaggedPtrOps) {A : Type 0} (i : ℕ) where
  -- A step in which a weak compare and swap fails only where the value differs, as a strong one does.
  abbrev pub Fair :
      {s : Shared P.Rep A} {p : Pc P.Rep A} {t : Shared P.Rep A} {q : Pc P.Rep A}
      → Move P i s p t q
      → Type 0
  Fair {s} (link_failed {n} {tail} {next} h) = P.equal (s.cells (P.get_ptr tail)).next next ≡ false
  Fair {s} (dequeue_failed {head} {next} {ret}) = P.equal s.head head ≡ false
  Fair m = Unit {0}

  abbrev pub Next : Shared P.Rep A → Pc P.Rep A → Shared P.Rep A → Pc P.Rep A → Type 0
  Next s p t q = (m : Move P i s p t q) × Fair m

  -- What a thread that goes on alone cannot avoid, in so many fair steps.
  abbrev pub Inevitable :
      (Shared P.Rep A → Pc P.Rep A → Type 0) → ℕ → Shared P.Rep A → Pc P.Rep A → Type 0
  Inevitable = Progress.Inevitable Next

  -- A thread is inside of an operation that has not yet found its result.
  abbrev is_inside : Pc P.Rep A → Bool
  is_inside Pc.idle = false
  is_inside (Pc.taken a ret due) = false
  is_inside (Pc.found_empty seen) = false
  is_inside p = true

  -- The next step of a thread inside of an operation.
  abbrev advance : Shared P.Rep A → Pc P.Rep A → Shared P.Rep A × Pc P.Rep A
  advance s (Pc.built n) = (s, Pc.tail_loaded n s.tail)
  advance s (Pc.tail_loaded n tail) = (s, Pc.next_loaded n tail (s.cells (P.get_ptr tail)).next)
  advance s (Pc.next_loaded n tail next) =
      if P.equal tail s.tail then (s, Pc.tail_checked n tail next) else (s, Pc.built n)
  advance s (Pc.tail_checked n tail next) =
      if P.get_ptr next == null
      then (if P.equal (s.cells (P.get_ptr tail)).next next
          then (link_node P n tail next s, Pc.linked n tail)
          else (s, Pc.built n))
      else if P.equal s.tail tail
      then (move_tail P tail (P.get_ptr next) s, Pc.built n)
      else (s, Pc.built n)
  advance s (Pc.linked n tail) =
      if P.equal s.tail tail then (move_tail P tail n s, Pc.idle) else (s, Pc.idle)
  advance s Pc.dequeuing = (s, Pc.head_read s.head)
  advance s (Pc.head_read head) = (s, Pc.both_read head s.tail)
  advance s (Pc.both_read head tail) =
      (s, Pc.next_read head tail (s.cells (P.get_ptr head)).next s.log)
  advance s (Pc.next_read head tail next seen) =
      if P.equal head s.head then (s, Pc.head_checked head tail next seen) else (s, Pc.dequeuing)
  advance s (Pc.head_checked head tail next seen) =
      if P.get_ptr head == P.get_ptr tail
      then (if P.get_ptr next == null
          then (s, Pc.found_empty seen)
          else if P.equal s.tail tail
          then (move_tail P tail (P.get_ptr next) s, Pc.dequeuing)
          else (s, Pc.dequeuing))
      else if P.get_ptr next == null
      then (s, Pc.dequeuing)
      else (s, Pc.value_read head next (s.cells (P.get_ptr next)).value)
  advance s (Pc.value_read head next ret) =
      if P.equal s.head head
      then (
        take_off P i head next s,
        Pc.taken (P.get_ptr head) ret (s.cells (P.get_ptr next)).value,
      )
      else (s, Pc.dequeuing)
  advance s p = (s, p)

  -- A fair step inside of an operation is the next one.
  Fair-advance :
      {s t : Shared P.Rep A} {p q : Pc P.Rep A} (m : Move P i s p t q)
      → Fair m
      → is_inside p ≡ true
      → advance s p ≡ (t, q)
  Fair-advance refused f h = absurd (ground (arith, h))
  Fair-advance (construct v n e) f h = absurd (ground (arith, h))
  Fair-advance load_tail f h = refl
  Fair-advance load_next f h = refl
  Fair-advance (check_tail e) f h = rw e refl
  Fair-advance (tail_changed e) f h = rw e refl
  Fair-advance (link {n} {tail} {next} last e) f h = rw (is_eq (P.get_ptr next) null last, e) refl
  Fair-advance (link_failed {n} {tail} {next} last) f h =
      rw (is_eq (P.get_ptr next) null last, f) refl
  Fair-advance (help {n} {tail} {next} some e) f h = rw (not_eq (P.get_ptr next) null some, e) refl
  Fair-advance (help_failed {n} {tail} {next} some e) f h =
      rw (not_eq (P.get_ptr next) null some, e) refl
  Fair-advance (swing e) f h = rw e refl
  Fair-advance (swing_failed e) f h = rw e refl
  Fair-advance call_dequeue f h = absurd (ground (arith, h))
  Fair-advance read_head f h = refl
  Fair-advance read_tail f h = refl
  Fair-advance read_next f h = refl
  Fair-advance (check_head e) f h = rw e refl
  Fair-advance (head_changed e) f h = rw e refl
  Fair-advance (return_false {head} {tail} {next} same last) f h =
      rw (is_eq (P.get_ptr head) (P.get_ptr tail) same, is_eq (P.get_ptr next) null last) refl
  Fair-advance (advance_tail {head} {tail} {next} same some e) f h =
      rw (is_eq (P.get_ptr head) (P.get_ptr tail) same, not_eq (P.get_ptr next) null some, e) refl
  Fair-advance (advance_failed {head} {tail} {next} same some e) f h =
      rw (is_eq (P.get_ptr head) (P.get_ptr tail) same, not_eq (P.get_ptr next) null some, e) refl
  Fair-advance (null_seen {head} {tail} {next} apart last) f h =
      rw (not_eq (P.get_ptr head) (P.get_ptr tail) apart, is_eq (P.get_ptr next) null last) refl
  Fair-advance (read_value {head} {tail} {next} apart some) f h =
      rw (not_eq (P.get_ptr head) (P.get_ptr tail) apart, not_eq (P.get_ptr next) null some) refl
  Fair-advance (dequeue_done e) f h = rw e refl
  Fair-advance dequeue_failed f h = rw f refl
  Fair-advance (destruct q small) f h = absurd (ground (arith, h))
  Fair-advance return_empty f h = absurd (ground (arith, h))

  module _ (post : Shared P.Rep A → Pc P.Rep A → Type 0) where
    pub now : (k : ℕ) (s : Shared P.Rep A) (p : Pc P.Rep A) → post s p → Inevitable post k s p
    now = Progress.now Next post

    pub must :
        {s t : Shared P.Rep A} {p q : Pc P.Rep A} (k : ℕ) (m : Move P i s p t q)
        → Fair m
        → is_inside p ≡ true
        → Inevitable post k t q
        → Inevitable post (suc k) s p
    must {s} {t} {p} {q} k m fair inside after =
        Progress.must Next post (advance s p) k s t p q
          (λ t' q' (m', fair'). Fair-advance m' fair' inside) (m, fair) after
