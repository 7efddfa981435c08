-- ===== src/Atomic/Examples.antt =====
-- The theorems on the atomic operations at a byte, while another thread adds to it.
use boost_lockfree.Prelude.{◌+◌, ◌%◌, ◌^◌, arith, true, false, List, [], ◌∷◌, Returns}
use boost_lockfree.Atomic.Weak.{Attempt, word}
use boost_lockfree.Atomic.{modify}
use boost_lockfree.Atomic.Linear.{Modified, modify_linear}

-- A call that another thread disturbs, and one that fails for no reason.
abbrev attempts : List Attempt
attempts =
    record { others = λ v. (v + 5) % 2 ^ 8; spurious = false }
    ∷ record { others = λ v. v; spurious = true }
    ∷ []

modify_linear_example :
    Returns
      (Modified (word 8) (λ o. (o + 250) % 2 ^ 8) attempts 7)
      (modify (word 8) (λ o. (o + 250) % 2 ^ 8) attempts 7)
modify_linear_example =
    modify_linear (word 8) (λ o. (o + 250) % 2 ^ 8) (λ o. omega arith) attempts 7
