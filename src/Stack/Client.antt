-- ===== src/Stack/Client.antt =====
-- A client that makes any sequence of calls on a stack cannot tell it from the abstract stack.
use boost_lockfree.Prelude.{
  ℕ, ◌+◌, ◌≤◌, ◌≡◌, refl, sym, ap, arith, Bool, List, [], ◌∷◌, length, Run, ok, ◌>>=◌, Returns,
}
use boost_lockfree.TaggedPtr.{TaggedPtrOps}
use boost_lockfree.Memory.{Allocator}
use boost_lockfree.Freelist.{no_memory}
use boost_lockfree.Stack.{Stack, construct, push, pop}
use boost_lockfree.Stack.Push.{Holds, push_unsafe_refines}
use boost_lockfree.Stack.Pop.{pop_unsafe_refines}
use boost_lockfree.Stack.Agree.{push-agree, pop-agree}
use boost_lockfree.Stack.Reserve.{construct_refines}
use boost_lockfree.Stack.Spec
use boost_lockfree.Stack.Spec.{View, Op, put, take, Reply, was_put, was_taken}

-- A call, with the spurious failures that its two loops meet.
pub record Call (A : Type 0) : Type 0 where
  pub op : Op A
  pub failures : List Bool
  pub pool_failures : List Bool

abbrev pub ops_of : {A : Type 0} → List (Call A) → List (Op A)
ops_of [] = []
ops_of (c ∷ calls) = c.op ∷ ops_of calls

module _ {P : TaggedPtrOps} {A : Type 0} (al : Allocator P A) (may_allocate : Bool) where
  unfoldable pub step : Call A → Op A → Stack P.Rep A → Run (Reply A × Stack P.Rep A)
  step c (put v) self = do
    (done, self') ← push al may_allocate c.failures c.pool_failures v self
    ok (was_put done, self')
  step c (take ret) self = do
    (done, x, self') ← pop P c.failures c.pool_failures ret self
    ok (was_taken done x, self')

  -- The calls in order, with what each returns.
  unfoldable pub run : List (Call A) → Stack P.Rep A → Run (List (Reply A))
  run [] self = ok []
  run (c ∷ calls) self = do
    (reply, self') ← step c c.op self
    replies ← run calls self'
    ok (reply ∷ replies)

  abbrev spec_step : Op A → View A → Reply A × View A
  spec_step (put v) s = (was_put (Spec.push may_allocate v s).0, (Spec.push may_allocate v s).1)
  spec_step (take ret) s = (was_taken (Spec.pop ret s).0 (Spec.pop ret s).1, (Spec.pop ret s).2)

  spec_run-cons :
      (op : Op A) (ops : List (Op A)) (s : View A)
      → Spec.run may_allocate s (op ∷ ops)
        ≡ (spec_step op s).0 ∷ Spec.run may_allocate (spec_step op s).1 ops
  unfolding Spec.run
  spec_run-cons (put v) ops s = refl
  spec_run-cons (take ret) ops s = refl

  step_refines :
      (c : Call A) (op : Op A) (self : Stack P.Rep A) (s : View A)
      → Holds al self s
      → self.list.mem.allocated + 1 ≤ al.supply
      → Returns
          (λ (reply, self').
            (reply ≡ (spec_step op s).0)
            × Holds al self' (spec_step op s).1
            × (self'.list.mem.allocated ≤ self.list.mem.allocated + 1))
          (step c op self)
  unfolding step
  step_refines c (put v) self s h left =
      let (out, e, after) = push_unsafe_refines al may_allocate v self s h (omega arith) in
      (
        (was_put out.0, out.1),
        rw (push-agree al may_allocate c.failures c.pool_failures v self s h, e) refl,
        (ap was_put after.0, after.1, after.2),
      )
  step_refines c (take ret) self s h left =
      let (out, e, after) = pop_unsafe_refines al ret self s h in
      (
        (was_taken out.0 out.1, out.2),
        rw (pop-agree al c.failures c.pool_failures ret self s h, e) refl,
        (rw (after.0, after.1) refl, after.2, omega (arith, after.3)),
      )

  run-Holds :
      (calls : List (Call A)) (self : Stack P.Rep A) (s : View A)
      → Holds al self s
      → self.list.mem.allocated + length calls ≤ al.supply
      → run calls self ≡ ok (Spec.run may_allocate s (ops_of calls))
  unfolding run Spec.run
  run-Holds [] self s h left = refl
  run-Holds (c ∷ calls) self s h left =
      let (out, e, after) = step_refines c c.op self s h (omega arith) in
      rw (e, run-Holds calls out.1 (spec_step c.op s).1 after.1 (omega (arith, after.2)), after.0)
        (ap ok (sym (spec_run-cons c.op (ops_of calls) s)))

  -- Any sequence of `push` and `pop` calls on a fresh `stack(n)` returns, and answers as the
  -- abstract stack with `n` free nodes does, whatever calls of `compare_exchange_weak` fail for no
  -- reason. The allocator has storage for `n` nodes and for one more with each call.
  pub client_refines :
      (n : ℕ) (calls : List (Call A))
      → n + length calls ≤ al.supply
      → (construct al n (no_memory al) >>= run calls)
        ≡ ok (Spec.run may_allocate (record { items = []; spare = n }) (ops_of calls))
  client_refines n calls left =
      let (self, e, h) = construct_refines al n (omega arith) in
      rw e (run-Holds calls self _ h.0 (omega (arith, h.1)))
