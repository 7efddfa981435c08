-- ===== src/Lib.antt =====
-- boost.lockfree: lock-free containers on atomic operations.
--
-- The program. `boost/lockfree/ringbuffer.hpp` is a ring buffer for one producer and one consumer
-- thread. `boost/lockfree/stack.hpp` is a stack for any number of threads, whose nodes come from a
-- freelist (`boost/lockfree/detail/freelist.hpp`), itself a stack of free nodes; both link their
-- nodes by pointers with tags (`boost/lockfree/detail/tagged_ptr_dcas.hpp` and
-- `tagged_ptr_ptrcompression.hpp`), which keep a compare and swap from mistaking a node that has come
-- back for one that never left. `boost/lockfree/fifo.hpp` is a queue of such nodes behind a dummy one.
--
-- The files.
-- Prelude: shared names, Boolean tests, runs that may fault or hang, `size_t` words.
-- Progress: what a thread that runs alone comes to in so many steps, whichever it takes.
-- Array: C++ arrays with range checks, and `std::copy`.
-- Ringbuffer: `detail::ringbuffer_base<T>`, one function per method on the record of the two
--   indices, which takes the buffer and the size as the methods do. An overload has a name of its
--   own: `enqueue_n`, `enqueue_range`, `dequeue_n`, `dequeue_to`. Ringbuffer/Static and
--   Ringbuffer/Dynamic are the two class templates `ringbuffer`. Ringbuffer/Queue is the abstract
--   queue; Enqueue, EnqueueBulk, Dequeue, DequeueBulk and DequeueTo prove the methods against it.
--   Ringbuffer/Spsc has the two threads as step relations, one shared access a step.
-- TaggedPtr: the interface of a tagged pointer as a record of operations and laws; its children are
--   the two implementations, which fill it.
-- Memory: the heap of nodes, the allocator, and `compare_exchange_weak`; Memory/Chain has the chains
--   of nodes on it, and Memory/Links those on a heap that several threads share.
-- Freelist: `freelist_stack`; Laws and Nodes prove what its operations do to the chain of free
--   nodes, Agree compares the thread-safe operations with the unsafe ones, Reserve fills the pool,
--   Release is on its destructor. Freelist/Concurrent has any number of threads in `allocate`,
--   `deallocate` and `reserve` as a step relation; Refines compares it with a set of nodes.
-- Stack: `stack`; Spec is the abstract stack, Push and Pop prove the unsafe operations against it,
--   Agree the thread-safe ones against the unsafe ones, Reserve is on the constructors, Destroy on the
--   destructor, Client on a client that makes any calls.
--   Stack/Concurrent has any number of threads in `push` and `pop` as a step relation; its children are
--   the invariant, that every step keeps it, and what follows; Alone is on a thread that runs alone.
-- Fifo: `detail::fifo` of `boost/lockfree/fifo.hpp`; Spec is the abstract queue, Invariant the chain
--   from the head to the tail, Construct, Enqueue and Dequeue prove the unsafe operations against it,
--   Agree and AgreeDequeue the thread-safe ones against the unsafe ones, Destroy is on the destructor,
--   Client on a client that makes any calls, Pointers on the specialization for pointers.
--   Fifo/Concurrent has any number of threads in `enqueue` and `dequeue` as a step relation; its
--   children are the invariant, what a thread knows, that every step keeps both, and what follows;
--   Fair and Alone are on a thread that runs alone.
-- Atomic: the operations of `boost/atomic/detail/builder.hpp` that loop round a weak compare and
--   swap, and the operators of `boost/atomic/detail/base.hpp`. What they use of the class that they
--   extend is the interface `Base`, which Atomic/Weak fills with a compare and swap that may fail for
--   no reason. Linear is on the loops, ConstFetchAdd on a fetch_add of constants, Larger on an integer
--   inside a larger word, with Larger/Address for its place in memory and Bits for the
--   masks, Order on the orders of `boost/memory_order.hpp`.
--   Atomic/Platform says what a class of one platform offers and when it is right: X86 is
--   `boost/atomic/detail/gcc-x86.hpp`, Fallback `fallback.hpp`, Interlocked `interlocked.hpp`, and
--   CasLoops `generic-cas.hpp` and the 64 bits of i686, which fill `Base`.
--   LoadLocked has the loops on a load and a conditional store, of Alpha, Power and Arm, which are
--   `gcc-alpha.hpp`, `gcc-ppc.hpp` and `gcc-armv6+.hpp`; the compare and swap of `atomic_ppc_64` does
--   not compile and is left out. LinuxArm is the compare and swap of `linux-arm.hpp`. Fences has the
--   barriers of these four, as the instructions before and behind each access; those of Power are the
--   ones of `atomic_ppc_32`.
--   Casts is `boost/atomic/detail/integral-casts.hpp`, Front the overloads of `base.hpp` and the
--   `atomic_flag` of `boost/atomic.hpp`, and Pointer its `atomic<T *>`.
--
-- Bounds and fuel. `size_t` has 64 bits, and its wrap-around is written out. `next_index` runs on as
-- much fuel as the sum it reduces, which a positive size never uses up. The loops round
-- `compare_exchange_weak` run on the list of its spurious failures: the call behind the end of the
-- list does not fail for no reason, so that a run of one thread ends there. In Atomic the list also
-- says what the other threads do to the value before each call, and the call behind its end is
-- undisturbed. The loops of the destructors and of the unsafe fifo operations take their fuel as an
-- argument. In Stack/Concurrent and Freelist/Concurrent the tags wrap, and the theorems ask for fewer
-- nodes taken than there are tags; those on Fifo/Concurrent ask that the tag of each link at the start
-- and the number of writes that took a new tag since add up to less than there are tags.
--
-- Not modelled. `std::allocator` is a parameter: an injective sequence of addresses that the
-- tagged pointers can hold, with a limit after which it throws. The element type is a type, with
-- assignment as copying. Memory orders weaker than sequential consistency, padding to cache lines
-- and `is_lock_free` are left out, but Atomic/X86 and Atomic/Fences record the fences of each call. The
-- pool of the concurrent stack and fifo is a set of nodes, each call on which is one step; that the
-- concurrent freelist is one is proved apart. The constructors, the destructors and the unsafe
-- operations are run by one thread. Instructions of a processor, built-in functions of a compiler and
-- functions of an operating system are parameters with their documented results; the state of a smart
-- pointer and its `reset` are parameters of which nothing is assumed.
pub mod Progress
pub mod Prelude
pub mod Array
pub mod Atomic
pub mod Ringbuffer
pub mod TaggedPtr
pub mod Memory
pub mod Freelist
pub mod Stack
pub mod Fifo
