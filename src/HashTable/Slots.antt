-- ===== src/HashTable/Slots.antt =====
-- The fields of the slots of hashtable.h after a write to one of them.
use cjet.Base.{ℕ, Option, ==_refl, ==_ne, arith, ◌≡◌, ◌≢◌}
use cjet.Base.Str.{Str}
use cjet.HashTable.{Table, set_entry, set_hop}

module _ {V : Type 0} (q : ℕ) (t : Table V) where
  module _ (key : Option Str) (value : V) where
    pub hop-set_entry : (p : ℕ) → (set_entry q key value t p).hop_info ≡ (t p).hop_info
    unfolding set_entry
    hop-set_entry p = ground arith

    pub entry_self :
        ((set_entry q key value t q).key ≡ key) × ((set_entry q key value t q).value ≡ value)
    unfolding set_entry
    entry_self = ground (arith, ==_refl q)

    pub entry_other :
        (p : ℕ)
        → p ≢ q
        → ((set_entry q key value t p).key ≡ (t p).key)
          × ((set_entry q key value t p).value ≡ (t p).value)
    unfolding set_entry
    entry_other p ne = ground (arith, ==_ne p q ne)

  module _ (hop_info : ℕ) where
    pub hop_self : (set_hop q hop_info t q).hop_info ≡ hop_info
    unfolding set_hop
    hop_self = ground (arith, ==_refl q)

    pub hop_other : (p : ℕ) → p ≢ q → (set_hop q hop_info t p).hop_info ≡ (t p).hop_info
    unfolding set_hop
    hop_other p ne = ground (arith, ==_ne p q ne)

    pub entry-set_hop :
        (p : ℕ)
        → ((set_hop q hop_info t p).key ≡ (t p).key)
          × ((set_hop q hop_info t p).value ≡ (t p).value)
    unfolding set_hop
    entry-set_hop p = ground arith
