-- ===== src/Fifo/Concurrent/Alone.antt =====
-- A thread on the fifo that runs alone comes to the end of its operation.
use boost_lockfree.Prelude.{
  ℕ, suc, ◌+◌, ◌<◌, ◌≡◌, ◌≢◌, ◌⊎◌, refl, sym, ap, subst, ◌∙◌, arith, Bool, true, false, ◌==◌,
  ==_iff, Bool-cases, inl, inr, List, [], ◌∷◌,
}
use boost_lockfree.TaggedPtr.{TaggedPtrOps}
use boost_lockfree.Memory.{Node, null}
use boost_lockfree.Memory.Links.{occurrences, Links-last}
use boost_lockfree.Fifo.Concurrent.{
  Event, Shared, Pc, System, Reach, move_tail, load_tail, load_next, check_tail, link, help, swing,
  read_head, read_tail, read_next, check_head, return_false, advance_tail, read_value, dequeue_done,
}
use boost_lockfree.Fifo.Concurrent.Fair.{Inevitable, now, must}
use boost_lockfree.Fifo.Concurrent.Invariant.{SharedInv}
use boost_lockfree.Fifo.Concurrent.Preservation.{Window, queued-lt, next-In, head_in}
use boost_lockfree.Fifo.Concurrent.Runs.{IsPool, Reach-Inv}

-- What a `dequeue` from `s` has come to: a value with its event, or an empty queue.
abbrev pub Finished :
    (P : TaggedPtrOps) {A : Type 0} → Shared P.Rep A → Shared P.Rep A → Pc P.Rep A → Type 0
Finished P {A} s t p =
    ((v : A) × (p ≡ Pc.taken (P.get_ptr s.head) v v) × (t.log ≡ Event.dequeued v ∷ s.log))
    ⊎ ((p ≡ Pc.found_empty s.log) × (t.log ≡ s.log))

-- What an operation that begins in `s` at `p` comes to.
abbrev pub Promised :
    (P : TaggedPtrOps) {A : Type 0}
    → Shared P.Rep A
    → Pc P.Rep A
    → Shared P.Rep A
    → Pc P.Rep A
    → Type 0
Promised P s (Pc.built n) t q = (q ≡ Pc.idle) × (t.log ≡ Event.enqueued (s.cells n).value ∷ s.log)
Promised P s Pc.dequeuing t q = Finished P s t q
Promised P s p t q = Unit {0}

-- A thread begins where it has built its node, or at the loop of `dequeue`.
abbrev pub is_beginning : {R A : Type 0} → Pc R A → Bool
is_beginning (Pc.built n) = true
is_beginning Pc.dequeuing = true
is_beginning p = false

abbrev pub most_steps : {R A : Type 0} → Pc R A → ℕ
most_steps (Pc.built n) = 9
most_steps p = 11

module _ (P : TaggedPtrOps) {A : Type 0} (i : ℕ) (post : Shared P.Rep A → Pc P.Rep A → Type 0) where
  equal_self : (r : P.Rep) → P.equal r r ≡ true
  equal_self r = (P.equal_iff r r).1 refl

  -- `enqueue` where the tail leads to the last node.
  link_alone :
      (k : ℕ) (s : Shared P.Rep A) (n : ℕ)
      → P.get_ptr (s.cells (P.get_ptr s.tail)).next ≡ null
      → ((t : Shared P.Rep A) → t.log ≡ Event.enqueued (s.cells n).value ∷ s.log → post t Pc.idle)
      → Inevitable P i post (suc (suc (suc (suc (suc k))))) s (Pc.built n)
  link_alone k s n last done = must P i post (suc (suc (suc (suc k)))) load_tail tt refl (
      must P i post (suc (suc (suc k))) load_next tt refl (
        must P i post (suc (suc k)) (check_tail (equal_self s.tail)) tt refl (
          must P i post (suc k) (link last (equal_self (s.cells (P.get_ptr s.tail)).next)) tt refl (
            must P i post k (swing (equal_self s.tail)) tt refl
              (now P i post k _ _ (done _ refl))))))

  -- `dequeue` where there is a value and the tail is not at the dummy.
  take_alone :
      (k : ℕ) (s : Shared P.Rep A)
      → P.get_ptr s.head ≢ P.get_ptr s.tail
      → P.get_ptr (s.cells (P.get_ptr s.head)).next ≢ null
      → ((t : Shared P.Rep A) (v : A)
          → t.log ≡ Event.dequeued v ∷ s.log
          → post t (Pc.taken (P.get_ptr s.head) v v))
      → Inevitable P i post (suc (suc (suc (suc (suc (suc k)))))) s Pc.dequeuing
  take_alone k s apart some done = must P i post (suc (suc (suc (suc (suc k))))) read_head tt refl (
      must P i post (suc (suc (suc (suc k)))) read_tail tt refl (
        must P i post (suc (suc (suc k))) read_next tt refl (
          must P i post (suc (suc k)) (check_head (equal_self s.head)) tt refl (
            must P i post (suc k) (read_value apart some) tt refl (
              must P i post k (dequeue_done (equal_self s.head)) tt refl
                (now P i post k _ _ (done _ _ refl)))))))

module _ (P : TaggedPtrOps) {A : Type 0} (cells : ℕ → Node P.Rep A) (i : ℕ) (s : Shared P.Rep A)
    (d : ℕ) (nodes : List ℕ) (inv : SharedInv P cells s d nodes) where
  -- The tail when it has been moved on, by a node.
  abbrev after : ℕ
  after = P.get_ptr (s.cells (P.get_ptr s.tail)).next

  moved-ptr : after ≢ null → P.get_ptr (P.make after (P.get_tag s.tail + 1)) ≡ after
  moved-ptr some = P.get_ptr-make after (P.get_tag s.tail + 1) (
      queued-lt P cells i s d nodes inv after (
        inv.in_queue after
          (omega (arith, next-In P cells i s d nodes inv (P.get_ptr s.tail) inv.tail_in some))))

  enqueue_alone : (n : ℕ) → Inevitable P i (Promised P s (Pc.built n)) 9 s (Pc.built n)
  enqueue_alone n =
      let post = Promised P s (Pc.built n) in
      let same = equal_self P i post s.tail in
      elim (Bool-cases (after == null)) [
        | inl test ↦ link_alone P i post 4 s n ((==_iff after null).0 test) (λ t log. (refl, log))
        | inr test ↦
            let some : after ≢ null = λ e. ground (arith, test) in
            let last = ap (λ (x : ℕ). P.get_ptr (s.cells x).next) (moved-ptr some) ∙ inv.lag some in
            must P i post 8 load_tail tt refl (
              must P i post 7 load_next tt refl (
                must P i post 6 (check_tail same) tt refl (
                  must P i post 5 (help some same) tt refl (
                    link_alone P i post 0 (move_tail P s.tail after s) n last
                      (λ t log. (refl, log))))))
      ]

  -- The dummy is the last node only when the tail is at it.
  some_after :
      P.get_ptr s.head ≢ P.get_ptr s.tail → P.get_ptr (s.cells (P.get_ptr s.head)).next ≢ null
  some_after apart e =
      let none : nodes ≡ [] =
        Links-last P s.cells (P.get_ptr s.head) d nodes inv.links (rw (← inv.links.0) e) in
      let only =
        subst (λ xs. 0 < occurrences (P.get_ptr s.tail) (d ∷ xs)) none
          (inv.all_in (P.get_ptr s.tail) inv.tail_in) in
      let at : P.get_ptr s.tail ≡ d = ground (arith, only) in apart (inv.links.0 ∙ sym at)

  -- A tail that is moved on from the dummy leaves it.
  moved-apart :
      P.get_ptr (s.cells (P.get_ptr s.head)).next ≢ null
      → P.get_ptr s.head
        ≢ P.get_ptr (P.make (P.get_ptr (s.cells (P.get_ptr s.head)).next) (P.get_tag s.tail + 1))
  moved-apart some e =
      let q = P.get_ptr (s.cells (P.get_ptr s.head)).next in
      let there : 0 < occurrences q nodes =
        next-In P cells i s d nodes inv (P.get_ptr s.head) (head_in P cells i s d nodes inv) some in
      let small = queued-lt P cells i s d nodes inv q (inv.in_queue q (omega (arith, there))) in
      let back : d ≡ q = sym inv.links.0 ∙ e ∙ P.get_ptr-make q (P.get_tag s.tail + 1) small in
      ground (arith, inv.once q, there, back)

  dequeue_alone : Inevitable P i (Finished P s) 11 s Pc.dequeuing
  dequeue_alone =
      let post = Finished P s in
      let found : (t : Shared P.Rep A) (v : A)
          → t.log ≡ Event.dequeued v ∷ s.log
          → post t (Pc.taken (P.get_ptr s.head) v v) =
        λ t v log. inl (v, refl, log) in
      elim (Bool-cases (P.get_ptr s.head == P.get_ptr s.tail)) [
        | inl test ↦
            let same : P.get_ptr s.head ≡ P.get_ptr s.tail =
              (==_iff (P.get_ptr s.head) (P.get_ptr s.tail)).0 test in
            must P i post 10 read_head tt refl (
              must P i post 9 read_tail tt refl (
                must P i post 8 read_next tt refl (
                  must P i post 7 (check_head ((P.equal_iff s.head s.head).1 refl)) tt refl
                    (elim (Bool-cases (P.get_ptr (s.cells (P.get_ptr s.head)).next == null)) [
                      | inl ends ↦
                          let last =
                            (==_iff (P.get_ptr (s.cells (P.get_ptr s.head)).next) null).0 ends in
                          must P i post 6 (return_false same last) tt refl
                            (now P i post 6 _ _ (inr (refl, refl)))
                      | inr goes_on ↦
                          let some : P.get_ptr (s.cells (P.get_ptr s.head)).next ≢ null =
                            λ e. ground (arith, goes_on) in
                          must P i post 6
                            (advance_tail same some ((P.equal_iff s.tail s.tail).1 refl)) tt refl
                            (take_alone P i post 0
                              (move_tail P s.tail (P.get_ptr (s.cells (P.get_ptr s.head)).next) s)
                              (moved-apart some) some found)
                    ]))))
        | inr test ↦
            let apart : P.get_ptr s.head ≢ P.get_ptr s.tail = λ e. ground (arith, test) in
            take_alone P i post 5 s apart (some_after apart) found
      ]

  begin_alone :
      (p : Pc P.Rep A) → is_beginning p ≡ true → Inevitable P i (Promised P s p) (most_steps p) s p
  begin_alone (Pc.built n) h = enqueue_alone n
  begin_alone Pc.dequeuing h = dequeue_alone
  begin_alone Pc.idle h = absurd (ground (arith, h))
  begin_alone (Pc.tail_loaded n tail) h = absurd (ground (arith, h))
  begin_alone (Pc.next_loaded n tail next) h = absurd (ground (arith, h))
  begin_alone (Pc.tail_checked n tail next) h = absurd (ground (arith, h))
  begin_alone (Pc.linked n tail) h = absurd (ground (arith, h))
  begin_alone (Pc.head_read head) h = absurd (ground (arith, h))
  begin_alone (Pc.both_read head tail) h = absurd (ground (arith, h))
  begin_alone (Pc.next_read head tail next seen) h = absurd (ground (arith, h))
  begin_alone (Pc.head_checked head tail next seen) h = absurd (ground (arith, h))
  begin_alone (Pc.value_read head next ret) h = absurd (ground (arith, h))
  begin_alone (Pc.taken a ret due) h = absurd (ground (arith, h))
  begin_alone (Pc.found_empty seen) h = absurd (ground (arith, h))

module _ (P : TaggedPtrOps) {A : Type 0} (pool : ℕ → Bool) (d : ℕ) (cells : ℕ → Node P.Rep A)
    (ok : IsPool P pool d) (s : System P.Rep A) (reached : Reach P pool d cells s)
    (window : Window P cells s.shared) where
  -- In every state that any number of threads reach, wherever the others stand, a thread that has
  -- built a node and goes on alone always has a step that it can take, and whichever it takes has put
  -- the node into the queue after at most 9; a thread that begins the loop of `dequeue` has taken a
  -- value off, or found the queue empty, after at most 11. The steps are those in which a weak compare
  -- and swap fails only where the value differs. The tag of each link at the start and the number of
  -- writes that took a new tag since add up to less than there are tags; the pool and the first dummy
  -- are at addresses that a tagged pointer can hold, without null.
  pub fifo_finishes_alone :
      (i : ℕ)
      → is_beginning (s.pc i) ≡ true
      → Inevitable P i (Promised P s.shared (s.pc i)) (most_steps (s.pc i)) s.shared (s.pc i)
  fifo_finishes_alone i begins =
      let (dummy, nodes, inv, threads) = Reach-Inv P pool d cells ok s reached window in
      begin_alone P cells i s.shared dummy nodes inv (s.pc i) begins
