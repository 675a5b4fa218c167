-- ===== src/Examples/Tables.antt =====
-- The properties of the hash table at concrete inputs, and a run of it.
use cjet.Base.{ℕ, none, some, List, [], ◌∷◌, ◌≡◌, refl, arith}
use cjet.Base.Str.{codes, str_eq}
use cjet.HashTable.{
  Table, success, hashtable_create, hashtable_put, hashtable_get, hashtable_remove,
}
use cjet.HashTable.Outcomes.{hashtable_put_near}
use cjet.HashTable.Refines.{Op, put, remove, get, Reply, stored, found, run, Explains, run-Explains}

abbrev calls : List Op
calls =
    put (codes "state/a") 7
    ∷ put (codes "state/b") 8
    ∷ put (codes "state/a") 9
    ∷ get (codes "state/a")
    ∷ remove (codes "state/b")
    ∷ get (codes "state/b")
    ∷ []

run-calls :
    run 5 (hashtable_create 5 0) calls
    ≡ some (
        stored success
        ∷ stored success
        ∷ stored success
        ∷ found (some 9)
        ∷ found (some 8)
        ∷ found none
        ∷ [])
unfolding run hashtable_create hashtable_put hashtable_get hashtable_remove str_eq
run-calls = refl

run-Explains_example :
    (rs : List Reply) × (run 5 (hashtable_create 5 0) calls ≡ some rs) × Explains [] calls rs
run-Explains_example = run-Explains 5 (omega arith) (omega arith) calls

-- Order 5, an empty table
abbrev empty_table : Table ℕ
unfolding hashtable_create
empty_table = hashtable_create 5 0

hashtable_put_near_example :
    (s : Table ℕ) × (hashtable_put 5 empty_table (codes "state/a") 7 ≡ some (success, s))
unfolding hashtable_create
hashtable_put_near_example =
    hashtable_put_near 5 (codes "state/a") 7 empty_table 0 (omega arith) (omega arith) (omega arith)
      (omega arith) refl
