-- ===== src/Stack/Spec.antt =====
-- The specification of the stack: the values, top first, and how many free nodes the pool has.
use boost_lockfree.Prelude.{ℕ, ◌+◌, ◌-◌, Bool, true, false, ◌==◌, if◌then◌else◌, List, [], ◌∷◌}

pub record View (A : Type 0) : Type 0 where
  pub items : List A
  pub spare : ℕ

-- Without a free node a caching pool asks the allocator, and a fixed one refuses.
unfoldable pub push : {A : Type 0} → Bool → A → View A → Bool × View A
push may_allocate v s =
    if s.spare == 0
    then (if may_allocate then (true, record s { items = v ∷ s.items }) else (false, s))
    else (true, record { items = v ∷ s.items; spare = s.spare - 1 })

pop_items : {A : Type 0} → A → List A → ℕ → Bool × A × View A
pop_items ret [] spare = (false, ret, record { items = []; spare = spare })
pop_items ret (x ∷ xs) spare = (true, x, record { items = xs; spare = spare + 1 })

-- The node of the value goes to the pool.
unfoldable pub pop : {A : Type 0} → A → View A → Bool × A × View A
unfolding pop_items
pop ret s = pop_items ret s.items s.spare

pub data Op (A : Type 0) : Type 0 where
  put : A → Op A
  take : A → Op A

pub data Reply (A : Type 0) : Type 0 where
  was_put : Bool → Reply A
  was_taken : Bool → A → Reply A

-- The answers to a client's calls in order.
unfoldable pub run : {A : Type 0} → Bool → View A → List (Op A) → List (Reply A)
run may_allocate s [] = []
run may_allocate s (put v ∷ ops) =
    let (done, s') = push may_allocate v s in was_put done ∷ run may_allocate s' ops
run may_allocate s (take ret ∷ ops) =
    let (done, x, s') = pop ret s in was_taken done x ∷ run may_allocate s' ops
