-- ===== src/Fifo.antt =====
-- boost/lockfree/fifo.hpp: `detail::fifo<T, freelist_t, Alloc>`, the queue of Michael and Scott, run by
-- one thread. `may_allocate` tells `caching_freelist_t` from `static_freelist_t`. A loop takes fuel, or
-- the list of the spurious failures of its `compare_exchange_weak`, one for each round.
pub mod Spec
pub mod Invariant
pub mod Enqueue
pub mod Dequeue
pub mod Construct
pub mod Agree
pub mod AgreeDequeue
pub mod Client
pub mod Destroy
pub mod Pointers
pub mod Concurrent
pub mod Examples
use boost_lockfree.Prelude.{
  ℕ, zero, suc, ◌+◌, Bool, true, false, ◌==◌, if◌then◌else◌, List, [], ◌∷◌, Run, ok, fault,
  out_of_fuel, ◌>>=◌,
}
use boost_lockfree.TaggedPtr.{TaggedPtrOps}
use boost_lockfree.Memory.{Memory, Node, null, Allocator, load, set_next, compare_exchange_weak}
use boost_lockfree.Freelist as Pool
use boost_lockfree.Freelist.{Freelist}

-- The atomics `head_` and `tail_`, and the pool with its heap. A node has a link and a datum.
pub record Fifo (R A : Type 0) : Type 0 where
  pub list : Freelist R A
  pub head : R
  pub tail : R

-- The constructors of a node: `node(T const &)` increments the tag that it finds in `next`, and
-- `node()` starts with the tag 0.
unfoldable pub node_next : (P : TaggedPtrOps) → P.Rep → P.Rep
node_next P old_next = P.make null (P.get_tag old_next + 1)

unfoldable pub dummy_next : (P : TaggedPtrOps) → P.Rep → P.Rep
dummy_next P old_next = P.make null 0

-- The strong compare and swap of one thread: the value that it leaves.
unfoldable pub compare_exchange_strong : (P : TaggedPtrOps) → P.Rep → P.Rep → P.Rep → P.Rep
compare_exchange_strong P expected desired current =
    if P.equal expected current then desired else current

module _ {P : TaggedPtrOps} {A : Type 0} (al : Allocator P A) (may_allocate : Bool) where
  -- `initialize` puts a dummy node into the list; its datum is what `T()` is.
  unfoldable pub initialize : List Bool → A → Freelist P.Rep A → Run (Fifo P.Rep A)
  unfolding dummy_next
  initialize got default pool = do
    (n, list) ← Pool.construct al may_allocate got (dummy_next P) default pool
    ok (record { list = list; head = P.make n 0; tail = P.make n 0 })

  -- The constructor `fifo(n)`; `fifo()` is `fifo(0)`.
  unfoldable pub construct : List Bool → A → ℕ → Memory P.Rep A → Run (Fifo P.Rep A)
  unfolding initialize
  construct got default n mem = do
    list ← Pool.init al 0 mem
    list' ← Pool.reserve_unsafe al (n + 1) list
    initialize got default list'

module _ {P : TaggedPtrOps} {A : Type 0} (al : Allocator P A) where
  unfoldable pub reserve : List (List Bool) → Fifo P.Rep A → Run (Fifo P.Rep A)
  reserve rounds self = do list ← Pool.reserve al rounds self.list; ok (record self { list = list })

  unfoldable pub reserve_unsafe : ℕ → Fifo P.Rep A → Run (Fifo P.Rep A)
  reserve_unsafe n self = do
    list ← Pool.reserve_unsafe al n self.list
    ok (record self { list = list })

module _ (P : TaggedPtrOps) {A : Type 0} where
  unfoldable pub empty : Fifo P.Rep A → Bool
  empty self = P.get_ptr self.head == P.get_ptr self.tail

  -- One round of the loop of `enqueue_unsafe`; `again` is the next.
  unfoldable pub enqueue_unsafe_round :
      (Fifo P.Rep A → Run (Bool × Fifo P.Rep A)) → ℕ → Fifo P.Rep A → Run (Bool × Fifo P.Rep A)
  enqueue_unsafe_round again n self = do
    let tail = self.tail
    node ← load (P.get_ptr tail) self.list.mem
    let next_ptr = P.get_ptr node.next
    let rest = again (record self { tail = P.make next_ptr (P.get_tag tail + 1) })
    let last =
        set_next (P.get_ptr tail) (λ next. P.make n (P.get_tag next + 1)) self.list.mem >>= λ mem.
        ok (
          true,
          record {
            list = record { mem = mem; pool = self.list.pool };
            head = self.head;
            tail = P.make n (P.get_tag tail + 1);
          },
        )
    if next_ptr == null then last else rest

  unfoldable pub enqueue_unsafe_loop : ℕ → ℕ → Fifo P.Rep A → Run (Bool × Fifo P.Rep A)
  unfolding enqueue_unsafe_round
  enqueue_unsafe_loop zero n self = out_of_fuel
  enqueue_unsafe_loop (suc fuel) n self = enqueue_unsafe_round (enqueue_unsafe_loop fuel n) n self

  -- One round of the loop of `dequeue_unsafe`. `ret` keeps its value when the fifo is empty.
  unfoldable pub dequeue_unsafe_round :
      (Fifo P.Rep A → Run (Bool × A × Fifo P.Rep A))
      → A
      → Fifo P.Rep A
      → Run (Bool × A × Fifo P.Rep A)
  dequeue_unsafe_round again ret self = do
    let head = self.head
    let tail = self.tail
    node ← load (P.get_ptr head) self.list.mem
    let next_ptr = P.get_ptr node.next
    let rest = again (record self { tail = P.make next_ptr (P.get_tag tail + 1) })
    let same = again self
    let last = load next_ptr self.list.mem >>= λ next_node.
        Pool.destruct_unsafe P (P.get_ptr head) self.list >>= λ list. ok (
          true,
          next_node.value,
          record { list = list; head = P.make next_ptr (P.get_tag head + 1); tail = tail },
        )
    if P.get_ptr head == P.get_ptr tail
        then (if next_ptr == null then ok (false, ret, self) else rest)
        else (if next_ptr == null then same else last)

  unfoldable pub dequeue_unsafe_loop : ℕ → A → Fifo P.Rep A → Run (Bool × A × Fifo P.Rep A)
  unfolding dequeue_unsafe_round
  dequeue_unsafe_loop zero ret self = out_of_fuel
  dequeue_unsafe_loop (suc fuel) ret self =
      dequeue_unsafe_round (dequeue_unsafe_loop fuel ret) ret self

  unfoldable pub dequeue_unsafe : ℕ → A → Fifo P.Rep A → Run (Bool × A × Fifo P.Rep A)
  unfolding dequeue_unsafe_loop
  dequeue_unsafe fuel ret self = dequeue_unsafe_loop fuel ret self

module _ {P : TaggedPtrOps} {A : Type 0} (al : Allocator P A) (may_allocate : Bool) where
  unfoldable pub enqueue_unsafe : ℕ → A → Fifo P.Rep A → Run (Bool × Fifo P.Rep A)
  unfolding node_next enqueue_unsafe_loop
  enqueue_unsafe fuel t self = do
    (n, list) ← Pool.construct_unsafe al may_allocate (node_next P) t self.list
    if n == null
        then ok (false, record self { list = list })
        else enqueue_unsafe_loop P fuel n (record self { list = list })

module _ (P : TaggedPtrOps) {A : Type 0} where
  -- One round of the loop of `enqueue`. A thread alone reads the tail twice alike.
  unfoldable pub enqueue_round :
      (Fifo P.Rep A → Run (Bool × Fifo P.Rep A))
      → Bool
      → ℕ
      → Fifo P.Rep A
      → Run (Bool × Fifo P.Rep A)
  unfolding compare_exchange_strong
  enqueue_round again spurious n self = do
    let tail = self.tail
    node ← load (P.get_ptr tail) self.list.mem
    let next = node.next
    let next_ptr = P.get_ptr next
    let tail2 = self.tail
    let desired = P.make n (P.get_tag next + 1)
    let (done, expected, next') = compare_exchange_weak P spurious next desired node.next
    let same = again self
    let moved_on = P.make next_ptr (P.get_tag tail + 1)
    let helped = again (record self { tail = compare_exchange_strong P tail moved_on self.tail })
    let last = set_next (P.get_ptr tail) (λ _. next') self.list.mem >>= λ mem. ok (
      true,
      record {
        list = record { mem = mem; pool = self.list.pool };
        head = self.head;
        tail = compare_exchange_strong P tail (P.make n (P.get_tag tail + 1)) self.tail;
      },
    )
    if P.equal tail tail2
        then (if next_ptr == null then (if done then last else same) else helped)
        else same

  unfoldable pub enqueue_loop : List Bool → ℕ → Fifo P.Rep A → Run (Bool × Fifo P.Rep A)
  unfolding enqueue_round
  enqueue_loop [] n self = enqueue_round (λ _. out_of_fuel) false n self
  enqueue_loop (spurious ∷ more) n self = enqueue_round (enqueue_loop more n) spurious n self

  -- One round of the loop of `dequeue`. `ret` is written before the head is known to be free to move.
  unfoldable pub dequeue_round :
      (A → Fifo P.Rep A → Run (Bool × A × Fifo P.Rep A))
      → Bool
      → List Bool
      → A
      → Fifo P.Rep A
      → Run (Bool × A × Fifo P.Rep A)
  unfolding compare_exchange_strong
  dequeue_round again spurious freed ret self = do
    let head = self.head
    let tail = self.tail
    node ← load (P.get_ptr head) self.list.mem
    let next_ptr = P.get_ptr node.next
    let head2 = self.head
    let moved_on = P.make next_ptr (P.get_tag tail + 1)
    let helped =
        again ret (record self { tail = compare_exchange_strong P tail moved_on self.tail })
    let same = again ret self
    let desired = P.make next_ptr (P.get_tag head + 1)
    let (done, expected, head') = compare_exchange_weak P spurious head desired self.head
    let last = load next_ptr self.list.mem >>= λ next_node.
        let rest = again next_node.value self in
        let out = Pool.destruct P freed (P.get_ptr head) self.list >>= λ list.
        ok (true, next_node.value, record { list = list; head = head'; tail = self.tail }) in
        if done then out else rest
    if P.equal head head2
        then (if P.get_ptr head == P.get_ptr tail
            then (if next_ptr == null then ok (false, ret, self) else helped)
            else (if next_ptr == null then same else last))
        else same

  unfoldable pub dequeue_loop :
      List Bool → List Bool → A → Fifo P.Rep A → Run (Bool × A × Fifo P.Rep A)
  unfolding dequeue_round
  dequeue_loop [] freed ret self = dequeue_round (λ _ _. out_of_fuel) false freed ret self
  dequeue_loop (spurious ∷ more) freed ret self =
      dequeue_round (dequeue_loop more freed) spurious freed ret self

  unfoldable pub dequeue : List Bool → List Bool → A → Fifo P.Rep A → Run (Bool × A × Fifo P.Rep A)
  unfolding dequeue_loop
  dequeue failures freed ret self = dequeue_loop failures freed ret self

module _ {P : TaggedPtrOps} {A : Type 0} (al : Allocator P A) (may_allocate : Bool) where
  unfoldable pub enqueue : List Bool → List Bool → A → Fifo P.Rep A → Run (Bool × Fifo P.Rep A)
  unfolding node_next enqueue_loop
  enqueue failures got t self = do
    (n, list) ← Pool.construct al may_allocate got (node_next P) t self.list
    if n == null
        then ok (false, record self { list = list })
        else enqueue_loop P failures n (record self { list = list })

-- The destructor: `drain` is its loop, and the addresses are what the pool gives back.
module _ (P : TaggedPtrOps) {A : Type 0} where
  unfoldable pub drain : ℕ → A → Fifo P.Rep A → Run (Fifo P.Rep A)
  drain zero dummy self = out_of_fuel
  drain (suc fuel) dummy self = dequeue_unsafe P (suc fuel) dummy self >>= λ (done, dummy', self').
      let rest = drain fuel dummy' self' in if done then rest else ok self'

  unfoldable pub destroy : ℕ → List Bool → A → Fifo P.Rep A → Run (List ℕ)
  unfolding drain empty
  destroy fuel freed dummy self = do
    let emptied = drain fuel dummy self
    self' ← if empty P self then ok self else emptied
    list ← Pool.destruct P freed (P.get_ptr self'.head) self'.list
    Pool.release P fuel list.pool list.mem
