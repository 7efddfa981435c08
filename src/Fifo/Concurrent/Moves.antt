-- ===== src/Fifo/Concurrent/Moves.antt =====
-- Every move of a thread on the fifo keeps the invariant.
use boost_lockfree.Prelude.{ℕ, ◌≡◌, refl, sym, ap, arith, List}
use boost_lockfree.TaggedPtr.{TaggedPtrOps}
use boost_lockfree.Memory.{Node}
use boost_lockfree.Fifo.Concurrent.{
  Shared, Pc, Move, refused, construct, load_tail, load_next, check_tail, tail_changed, link,
  link_failed, help, help_failed, swing, swing_failed, call_dequeue, read_head, read_tail,
  read_next, check_head, head_changed, return_false, advance_tail, advance_failed, null_seen,
  read_value, dequeue_done, dequeue_failed, destruct, return_empty,
}
use boost_lockfree.Fifo.Concurrent.Invariant.{ThreadInv, SharedInv}
use boost_lockfree.Fifo.Concurrent.Preservation.{Window}
use boost_lockfree.Fifo.Concurrent.Kept.{
  Kept, Behind-now, quiet, empty-Replays, construct-Kept, destruct-Kept, move_tail-Kept, link-Kept,
  take_off-Kept, Ends-Read, value-ThreadInv,
}

module _ (P : TaggedPtrOps) {A : Type 0} (cells : ℕ → Node P.Rep A) where
  pub Move-Kept :
      (i : ℕ) (s t : Shared P.Rep A) (p p' : Pc P.Rep A) (d : ℕ) (nodes : List ℕ)
      → Move P i s p t p'
      → SharedInv P cells s d nodes
      → ThreadInv P s i p
      → Window P cells t
      → Kept P cells i s t p'
  Move-Kept i s t p p' d nodes refused inv k room = quiet P cells i s d nodes inv Pc.idle tt
  Move-Kept i s t p p' d nodes (construct v n free) inv k room =
      construct-Kept P cells i s d nodes inv v n free room
  Move-Kept i s t p p' d nodes (load_tail {n}) inv k room =
      quiet P cells i s d nodes inv (Pc.tail_loaded n s.tail) (k.0, k.1, Behind-now P cells s.tail)
  Move-Kept i s t p p' d nodes (load_next {n} {tail}) inv k room =
      let next = (s.cells (P.get_ptr tail)).next in
      quiet P cells i s d nodes inv (Pc.next_loaded n tail next) (
        k.0,
        k.1,
        k.2,
        λ e null_next. (omega arith, λ x. (rw (← e) inv.tail_in, null_next, ap P.get_ptr e)),
        λ e ne. refl,
      )
  Move-Kept i s t p p' d nodes (check_tail {n} {tail} {next} same) inv k room =
      let e : s.tail ≡ tail = sym ((P.equal_iff tail s.tail).0 same) in
      quiet P cells i s d nodes inv (Pc.tail_checked n tail next) (k.0, k.1, k.2, k.3 e, k.4)
  Move-Kept i s t p p' d nodes (tail_changed {n} differs) inv k room =
      quiet P cells i s d nodes inv (Pc.built n) (k.0, k.1)
  Move-Kept i s t p p' d nodes (link {n} {tail} {next} e found) inv k room =
      link-Kept P cells i s d nodes inv n tail next k e
        ((P.equal_iff (s.cells (P.get_ptr tail)).next next).0 found) room
  Move-Kept i s t p p' d nodes (link_failed {n} e) inv k room =
      quiet P cells i s d nodes inv (Pc.built n) (k.0, k.1)
  Move-Kept i s t p p' d nodes (help {n} {tail} {next} ne found) inv k room =
      let e = (P.equal_iff s.tail tail).0 found in
      move_tail-Kept P cells i s d nodes inv tail (P.get_ptr next) (Pc.built n) e (k.4 e ne) ne room
        (k.0, k.1)
  Move-Kept i s t p p' d nodes (help_failed {n} ne differs) inv k room =
      quiet P cells i s d nodes inv (Pc.built n) (k.0, k.1)
  Move-Kept i s t p p' d nodes (swing {n} {tail} found) inv k room =
      let e = (P.equal_iff s.tail tail).0 found in
      move_tail-Kept P cells i s d nodes inv tail n Pc.idle e (k.2 e) k.1 room tt
  Move-Kept i s t p p' d nodes (swing_failed differs) inv k room =
      quiet P cells i s d nodes inv Pc.idle tt
  Move-Kept i s t p p' d nodes call_dequeue inv k room =
      quiet P cells i s d nodes inv Pc.dequeuing tt
  Move-Kept i s t p p' d nodes read_head inv k room =
      quiet P cells i s d nodes inv (Pc.head_read s.head) (Behind-now P cells s.head)
  Move-Kept i s t p p' d nodes (read_tail {head}) inv k room =
      quiet P cells i s d nodes inv (Pc.both_read head s.tail)
        (record { head_behind = k; tail_behind = Behind-now P cells s.tail; apart = λ e ne. ne })
  Move-Kept i s t p p' d nodes (read_next {head} {tail}) inv k room =
      quiet P cells i s d nodes inv (Pc.next_read head tail (s.cells (P.get_ptr head)).next s.log) (
        Ends-Read P cells i s d nodes head tail inv k,
        λ e ends. empty-Replays P cells i s d nodes inv (rw e ends),
      )
  Move-Kept i s t p p' d nodes (check_head {head} {tail} {next} {seen} same) inv k room =
      let e : s.head ≡ head = sym ((P.equal_iff head s.head).0 same) in
      quiet P cells i s d nodes inv (Pc.head_checked head tail next seen) (k.0, k.1 e)
  Move-Kept i s t p p' d nodes (head_changed differs) inv k room =
      quiet P cells i s d nodes inv Pc.dequeuing tt
  Move-Kept i s t p p' d nodes (return_false {seen} same e) inv k room =
      quiet P cells i s d nodes inv (Pc.found_empty seen) (k.1 e)
  Move-Kept i s t p p' d nodes (advance_tail {head} {tail} {next} same ne found) inv k room =
      let e = (P.equal_iff s.tail tail).0 found in
      move_tail-Kept P cells i s d nodes inv tail (P.get_ptr next) Pc.dequeuing e
        (k.0.last e same ne) ne room tt
  Move-Kept i s t p p' d nodes (advance_failed same ne differs) inv k room =
      quiet P cells i s d nodes inv Pc.dequeuing tt
  Move-Kept i s t p p' d nodes (null_seen ne e) inv k room =
      quiet P cells i s d nodes inv Pc.dequeuing tt
  Move-Kept i s t p p' d nodes (read_value {head} {tail} {next} ne some) inv k room =
      quiet P cells i s d nodes inv (Pc.value_read head next (s.cells (P.get_ptr next)).value)
        (value-ThreadInv P cells i s d nodes head tail next inv k.0 ne some)
  Move-Kept i s t p p' d nodes (dequeue_done {head} {next} {ret} found) inv k room =
      take_off-Kept P cells i s d nodes head next ret inv k ((P.equal_iff s.head head).0 found) room
  Move-Kept i s t p p' d nodes dequeue_failed inv k room =
      quiet P cells i s d nodes inv Pc.dequeuing tt
  Move-Kept i s t p p' d nodes (destruct {a} q small) inv k room =
      destruct-Kept P cells i s d nodes inv a q k.0 small
  Move-Kept i s t p p' d nodes return_empty inv k room = quiet P cells i s d nodes inv Pc.idle tt
