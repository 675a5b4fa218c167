-- ===== src/Examples/Heaps.antt =====
-- The property of the heap at concrete calls.
use cjet.Base.{none, some, List, [], ◌∷◌, ◌≡◌, ◌≤◌, refl, arith}
use cjet.Alloc.{Heap, allocate, cjet_malloc, cjet_calloc, cjet_free, find_block}
use cjet.Alloc.Accounts.{Call, run_calls, total, run_calls-Balanced}

-- The second block is over the limit, the third is one that the system has no memory for.
abbrev calls : List Call
calls =
    Call.malloc 100 (some 1)
    ∷ Call.malloc 900 (some 2)
    ∷ Call.malloc 10 none
    ∷ Call.calloc 4 8 (some 3)
    ∷ Call.free 1
    ∷ []

abbrev left : Heap
left = record { allocated_memory = 40; blocks = record { address = 3; size = 40 } ∷ [] }

calls_end : run_calls 1000 calls (record { allocated_memory = 0; blocks = [] }) ≡ some left
unfolding run_calls cjet_malloc cjet_calloc cjet_free allocate find_block
calls_end = refl

run_calls-Balanced_example :
    (left.allocated_memory ≡ total left.blocks) × (left.allocated_memory ≤ 1000)
run_calls-Balanced_example =
    run_calls-Balanced 1000 calls left (omega arith)
      (
        (λ ptr e. omega arith),
        ((λ ptr e. omega arith), ((λ ptr e. omega arith), ((λ ptr e. omega arith), (tt, tt)))),
      )
      calls_end
