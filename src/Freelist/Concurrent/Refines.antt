-- ===== src/Freelist/Concurrent/Refines.antt =====
-- The pool as its clients may see it: a set of nodes. Stack/Concurrent and Fifo/Concurrent take a pool
-- of this kind, of which each call is one step.
use boost_lockfree.Prelude.{
  ℕ, ◌<◌, ◌≡◌, ◌≢◌, refl, sym, ap, ◌∙◌, arith, Bool, true, false, List, [], ◌∷◌,
}
use boost_lockfree.TaggedPtr.{TaggedPtrOps}
use boost_lockfree.Memory.{Node, null}
use boost_lockfree.Memory.Links.{update}
use boost_lockfree.Freelist.Concurrent.{
  Place, outside, pooled, held, out, Event, Shared, Pc, Move, System, Step, Reach, load_empty,
  load_pool, read_next, take, take_again, take_empty, return_null, allocate_node, hand_out,
  use_node, call_deallocate, reserve_one, load_give, link, give, give_again, pick,
}
use boost_lockfree.Freelist.Concurrent.Invariant.{ThreadInv, SharedInv}
use boost_lockfree.Freelist.Concurrent.Moves.{Reach-Inv}

abbrev pub is_pooled : Place → Bool
is_pooled pooled = true
is_pooled outside = false
is_pooled (held i) = false
is_pooled out = false

-- One step of the set of free nodes, with the events before and after: nothing; a node that is in the
-- set leaves it; one that is not comes into it; the set is found empty.
pub data PoolStep (free free' : ℕ → Bool) (log : List Event) : List Event → Type 0 where
  stay : ((b : ℕ) → free' b ≡ free b) → PoolStep free free' log log
  construct :
      (n : ℕ)
      → free n ≡ true
      → ((b : ℕ) → free' b ≡ update free n false b)
      → PoolStep free free' log (Event.taken n ∷ log)
  destruct :
      (n : ℕ)
      → free n ≡ false
      → ((b : ℕ) → free' b ≡ update free n true b)
      → PoolStep free free' log (Event.given n ∷ log)
  refuse :
      ((b : ℕ) → free b ≡ false)
      → ((b : ℕ) → free' b ≡ free b)
      → PoolStep free free' log (Event.was_empty ∷ log)

module _ (P : TaggedPtrOps) {A : Type 0} where
  -- The nodes in the pool.
  abbrev pub free_in : Shared P.Rep A → ℕ → Bool
  free_in s b = is_pooled (s.place b)

  abbrev Refines : Shared P.Rep A → Shared P.Rep A → Type 0
  Refines s t = PoolStep (free_in s) (free_in t) s.log t.log

  none_free :
      (s : Shared P.Rep A) (nodes : List ℕ)
      → SharedInv P s nodes
      → P.get_ptr s.pool ≡ null
      → (b : ℕ) → free_in s b ≡ false
  none_free s [] inv e b = ground (arith, inv.all_in b)
  none_free s (a ∷ rest) inv e b = absurd (inv.links.1 (sym inv.links.0 ∙ e))

  -- Another place that is not the pool makes no difference.
  moved-Refines :
      (s : Shared P.Rep A) (n : ℕ) (x : Place)
      → s.place n ≢ Place.pooled
      → x ≢ Place.pooled
      → Refines s (record s { place = update s.place n x })
  moved-Refines s n x off x_off = stay (λ b. ground arith)

  Move-Refines :
      (may_allocate : Bool) (i : ℕ) (s t : Shared P.Rep A) (p p' : Pc P.Rep) (nodes : List ℕ)
      → Move P may_allocate i s p t p'
      → SharedInv P s nodes
      → ThreadInv P s i p
      → Refines s t
  Move-Refines may i s t p p' nodes (load_empty e) inv k =
      refuse (none_free s nodes inv e) (λ b. refl)
  Move-Refines may i s t p p' nodes (load_pool ne) inv k = stay (λ b. refl)
  Move-Refines may i s t p p' nodes read_next inv k = stay (λ b. refl)
  Move-Refines may i s t p p' nodes (take {old} found) inv k =
      let same = ap P.get_tag (sym ((P.equal_iff s.pool old).0 found)) ∙ inv.tag in
      let there = k.0.there same in construct (P.get_ptr old) (rw there refl) (λ b. ground arith)
  Move-Refines may i s t p p' nodes (take_again ne) inv k = stay (λ b. refl)
  Move-Refines may i s t p p' nodes (take_empty e) inv k =
      refuse (none_free s nodes inv e) (λ b. refl)
  Move-Refines may i s t p p' nodes (return_null e) inv k = stay (λ b. refl)
  Move-Refines may i s t p p' nodes (allocate_node n e new some small) inv k =
      moved-Refines s n (Place.held i) (λ x. ground arith) (λ x. ground arith)
  Move-Refines may i s t p p' nodes (hand_out {n}) inv k =
      moved-Refines s n Place.out (λ x. ground arith) (λ x. ground arith)
  Move-Refines may i s t p p' nodes (use_node n node e) inv k = stay (λ b. refl)
  Move-Refines may i s t p p' nodes (call_deallocate n e) inv k =
      moved-Refines s n (Place.held i) (λ x. ground arith) (λ x. ground arith)
  Move-Refines may i s t p p' nodes (reserve_one n new some small) inv k =
      moved-Refines s n (Place.held i) (λ x. ground arith) (λ x. ground arith)
  Move-Refines may i s t p p' nodes load_give inv k = stay (λ b. refl)
  Move-Refines may i s t p p' nodes link inv k = stay (λ b. refl)
  Move-Refines may i s t p p' nodes (give {n} found) inv k =
      destruct n (rw k.0 refl) (λ b. ground arith)
  Move-Refines may i s t p p' nodes give_again inv k = stay (λ b. refl)

  Step-Refines :
      (may_allocate : Bool) (s t : System P.Rep A) (nodes : List ℕ)
      → Step P may_allocate s t
      → SharedInv P s.shared nodes
      → ((j : ℕ) → ThreadInv P s.shared j (s.pc j))
      → Refines s.shared t.shared
  Step-Refines may s t nodes (pick i {m} {p} move) inv threads =
      Move-Refines may i s.shared m (s.pc i) p nodes move inv (threads i)

  -- Every step of every thread on the pool is a step of the set of free nodes, with the event that the
  -- log gains: `allocate` takes one node out of the set, and it was in the set; `deallocate` puts one
  -- back, and it was not; and a pool that `allocate` finds empty is empty at that moment. Fewer nodes
  -- have been taken than there are tags.
  pub pool_refines_set :
      (may_allocate : Bool) (cells : ℕ → Node P.Rep A) (s t : System P.Rep A)
      → Reach P may_allocate cells s
      → Step P may_allocate s t
      → s.shared.takes < P.tag_limit
      → PoolStep (free_in s.shared) (free_in t.shared) s.shared.log t.shared.log
  pool_refines_set may_allocate cells s t reached step window =
      let (nodes, inv, threads) = Reach-Inv P may_allocate cells s reached window in
      Step-Refines may_allocate s t nodes step inv threads
