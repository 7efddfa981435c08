-- ===== src/Fifo/Concurrent/Frame.antt =====
-- What a thread on the fifo knows outlives the steps of the others.
use boost_lockfree.Prelude.{ℕ, ◌<◌, ◌≡◌, ◌≢◌, ◌⊎◌, inl, inr, sym, ap, ◌∙◌, arith}
use boost_lockfree.TaggedPtr.{TaggedPtrOps}
use boost_lockfree.Fifo.Concurrent.{Place, Shared, Pc}
use boost_lockfree.Fifo.Concurrent.Invariant.{Behind, EndSeen, Leads, Ends, Read, ThreadInv, Frame}

module _ (P : TaggedPtrOps) {old now new : P.Rep}
    (moves : (new ≡ now) ⊎ (P.get_tag now < P.get_tag new)) (behind : Behind P old now) where
  Behind-later : Behind P old new
  Behind-later = elim moves [
    | inl e ↦ rw e behind
    | inr lt ↦ (omega (arith, lt, behind.0), λ e. absurd (omega (arith, lt, behind.0, e)))
  ]

  -- What holds the old value has held it all the time.
  unmoved : new ≡ old → (new ≡ now) × (now ≡ old)
  unmoved e = elim moves [
    | inl same ↦ (same, sym same ∙ e)
    | inr lt ↦ absurd (omega (arith, lt, behind.0, ap P.get_tag e))
  ]

module _ (P : TaggedPtrOps) {A : Type 0} {i : ℕ} {s t : Shared P.Rep A} (f : Frame P i s t) where
  Frame-EndSeen : (tail next : P.Rep) → EndSeen P s tail next → EndSeen P t tail next
  Frame-EndSeen tail next k e = (
    omega (arith, (k e).0, f.tag (P.get_ptr tail)),
    λ same.
        let now : P.get_tag next ≡ P.get_tag (s.cells (P.get_ptr tail)).next =
          omega (arith, same, (k e).0, f.tag (P.get_ptr tail)) in
        let (there, ends, here) = (k e).1 now in
        let (there', ends', stays) =
          f.last (P.get_ptr tail) there ends
            (omega (arith, same, (k e).0, f.tag (P.get_ptr tail))) in
        (there', ends', stays here),
  )

  Frame-Leads :
      (at next : P.Rep)
      → s.place (P.get_ptr at) ≡ Place.queued
      → t.place (P.get_ptr at) ≡ Place.queued
      → Leads P s at next
      → Leads P t at next
  Frame-Leads at next before after k ne =
      f.next (P.get_ptr at) before after (λ e. ne (sym (k ne) ∙ e)) ∙ k ne

  module _ {tail : P.Rep} (behind : Behind P tail s.tail) (e : t.tail ≡ tail) where
    tail_before : s.tail ≡ tail
    tail_before = (unmoved P f.tail_moves behind e).1

    tail_at : (s.place (P.get_ptr tail) ≡ Place.queued) × (t.place (P.get_ptr tail) ≡ Place.queued)
    tail_at = (rw (← tail_before) f.tail_in, rw (← e) f.tail_in')

    Frame-tail_next : (next : P.Rep) → (s.tail ≡ tail → Leads P s tail next) → Leads P t tail next
    Frame-tail_next next k = Frame-Leads tail next tail_at.0 tail_at.1 (k tail_before)

  module _ {head : P.Rep} (behind : Behind P head s.head) (e : t.head ≡ head) where
    head_before : (t.head ≡ s.head) × (s.head ≡ head)
    head_before = unmoved P f.head_moves behind e

    head_at : (s.place (P.get_ptr head) ≡ Place.queued) × (t.place (P.get_ptr head) ≡ Place.queued)
    head_at =
        let before : s.place (P.get_ptr head) ≡ Place.queued = rw (← head_before.1) f.head_in in
        (before, f.stays head_before.0 (P.get_ptr head) before)

    Frame-tail_off : P.get_ptr s.tail ≢ P.get_ptr head → P.get_ptr t.tail ≢ P.get_ptr head
    Frame-tail_off ne same =
        f.apart head_before.0 (λ x. ne (x ∙ ap P.get_ptr head_before.1))
          (same ∙ ap P.get_ptr (sym e))

  Frame-Ends : (head tail : P.Rep) → Ends P s head tail → Ends P t head tail
  Frame-Ends head tail k = record {
    head_behind = Behind-later P f.head_moves k.head_behind;
    tail_behind = Behind-later P f.tail_moves k.tail_behind;
    apart = λ e ne. Frame-tail_off k.head_behind e (k.apart (head_before k.head_behind e).1 ne);
  }

  Frame-Read : (head tail next : P.Rep) → Read P s head tail next → Read P t head tail next
  Frame-Read head tail next k = record {
    ends = Frame-Ends head tail k.ends;
    first = λ e.
        let at = head_at k.ends.head_behind e in
        Frame-Leads head next at.0 at.1 (k.first (head_before k.ends.head_behind e).1);
    last = λ e same. Frame-tail_next k.ends.tail_behind e next (λ before. k.last before same);
  }

  -- The others keep what they know.
  pub Frame-ThreadInv : (j : ℕ) → j ≢ i → (p : Pc P.Rep A) → ThreadInv P s j p → ThreadInv P t j p
  Frame-ThreadInv j ne Pc.idle k = tt
  Frame-ThreadInv j ne (Pc.built n) k =
      let (still, same) = f.others n j ne k.0 in (still, rw same k.1)
  Frame-ThreadInv j ne (Pc.tail_loaded n tail) k =
      let (still, same) = f.others n j ne k.0 in
      (still, rw same k.1, Behind-later P f.tail_moves k.2)
  Frame-ThreadInv j ne (Pc.next_loaded n tail next) k =
      let (still, same) = f.others n j ne k.0 in
      (
        still,
        rw same k.1,
        Behind-later P f.tail_moves k.2,
        λ e. Frame-EndSeen tail next (k.3 (tail_before k.2 e)),
        λ e. Frame-tail_next k.2 e next k.4,
      )
  Frame-ThreadInv j ne (Pc.tail_checked n tail next) k =
      let (still, same) = f.others n j ne k.0 in
      (
        still,
        rw same k.1,
        Behind-later P f.tail_moves k.2,
        Frame-EndSeen tail next k.3,
        λ e. Frame-tail_next k.2 e next k.4,
      )
  Frame-ThreadInv j ne (Pc.linked n tail) k = (
    Behind-later P f.tail_moves k.0,
    k.1,
    λ e.
        let at = tail_at k.0 e in
        let leads = k.2 (tail_before k.0 e) in
        f.next (P.get_ptr tail) at.0 at.1 (λ x. k.1 (sym leads ∙ x)) ∙ leads,
  )
  Frame-ThreadInv j ne Pc.dequeuing k = tt
  Frame-ThreadInv j ne (Pc.head_read head) k = Behind-later P f.head_moves k
  Frame-ThreadInv j ne (Pc.both_read head tail) k = Frame-Ends head tail k
  Frame-ThreadInv j ne (Pc.next_read head tail next seen) k =
      (Frame-Read head tail next k.0, λ e x. k.1 (head_before k.0.ends.head_behind e).1 x)
  Frame-ThreadInv j ne (Pc.head_checked head tail next seen) k =
      (Frame-Read head tail next k.0, k.1)
  Frame-ThreadInv j ne (Pc.value_read head next ret) k = (
    Behind-later P f.head_moves k.0,
    k.1,
    λ e.
        let (off, leads, there, same) = k.2 (head_before k.0 e).1 in
        let at = head_at k.0 e in
        (
          Frame-tail_off k.0 e off,
          Frame-Leads head next at.0 at.1 (λ x. leads) k.1,
          f.stays (head_before k.0 e).0 (P.get_ptr next) there,
          f.value (P.get_ptr next) there ∙ same,
        ),
  )
  Frame-ThreadInv j ne (Pc.taken a ret due) k = ((f.others a j ne k.0).0, k.1)
  Frame-ThreadInv j ne (Pc.found_empty seen) k = k
