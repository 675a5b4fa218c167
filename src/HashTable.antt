-- ===== src/HashTable.antt =====
-- The hopscotch hash table of src/hashtable.h with texts as keys, as src/table.c and src/router.c
-- declare it. The bit `d` of a slot's `hop_info` says that the slot `d` places on holds a key that
-- hashes here. HashTable/Words and HashTable/Places are about bits and positions, HashTable/Search about
-- the loop that finds a key, HashTable/Contents about what a table holds, HashTable/Moves about `find_closer_entry`,
-- HashTable/Writes about put and remove, HashTable/Refines about the association list that it stands for.
use cjet.Base.{
  ℕ, zero, suc, ◌+◌, ◌-◌, ◌*◌, ◌/◌, ◌%◌, ◌^◌, Bool, true, false, ◌&&◌, Option, none, some, is_some,
  [], ◌∷◌, ltb, ◌==◌, bit_and, bit_or, bit_xor, if◌then◌else◌,
}
use cjet.Base.Str.{Str, str_eq}
pub mod Words
pub mod Places
pub mod Search
pub mod Contents
pub mod Moves
pub mod Closer
pub mod Edits
pub mod Slots
pub mod Writes
pub mod Outcomes
pub mod Removal
pub mod Refines

-- `struct hashtable_string`; no key is the pointer HASHTABLE_INVALIDENTRY.
pub record Slot (V : Type 0) : Type 0 where
  pub hop_info : ℕ
  pub key : Option Str
  pub value : V

-- The array of `table_size` slots. Every index is below the size.
abbrev pub Table : Type 0 → Type 0
Table V = ℕ → Slot V

-- What HASHTABLE_PUT returns; texts are never the invalid key.
pub data Status : Type 0 where
  success full : Status

-- `uint32_t c = *key`, where `char` is signed
unfoldable pub char_to_uint32 : ℕ → ℕ
char_to_uint32 c = if ltb c 128 then c else c + (2 ^ 32 - 256)

-- The loop of `hash_func_string`
unfoldable pub hash_chars : ℕ → Str → ℕ
unfolding char_to_uint32
hash_chars hash [] = hash
hash_chars hash (c ∷ key) =
    hash_chars ((char_to_uint32 c + hash * 2 ^ 6 + hash * 2 ^ 16 + (2 ^ 32 - hash)) % 2 ^ 32) key

-- The mixing of `hs_hash32`, before its last shift
unfoldable pub mix_hash : ℕ → ℕ
mix_hash key =
    let key1 = bit_xor (bit_xor key 61) (key / 2 ^ 16) in
    let key2 = (key1 + key1 * 2 ^ 3) % 2 ^ 32 in
    let key3 = bit_xor key2 (key2 / 2 ^ 4) in
    let key4 = key3 * 0x27d4eb2d % 2 ^ 32 in bit_xor key4 (key4 / 2 ^ 15)

-- `hop_range`: the bits of `hop_info`
abbrev pub hop_range : ℕ
hop_range = 32

-- A write to a field of one slot
module _ {V : Type 0} where
  abbrev pub set_slot : ℕ → Slot V → Table V → Table V
  set_slot q s t p = if p == q then s else t p

  -- `table[q].key = key; table[q].value = value`
  unfoldable pub set_entry : ℕ → Option Str → V → Table V → Table V
  set_entry q key value t = set_slot q (record (t q) { key = key; value = value }) t

  -- `table[p].hop_info = hop_info`
  unfoldable pub set_hop : ℕ → ℕ → Table V → Table V
  set_hop p hop_info t = set_slot p (record (t p) { hop_info = hop_info }) t

-- `is_equal_string`, on a slot that holds a key
unfoldable pub is_key : Str → Option Str → Bool
is_key key none = false
is_key key (some k) = str_eq k key

-- `~(mask)` on 32 bits
abbrev pub complement : ℕ → ℕ
complement mask = bit_xor (2 ^ 32 - 1) mask

-- The inner loop of `find_closer_entry`: the first bit from `i` on, with its mask
unfoldable pub first_hop : ℕ → ℕ → ℕ → ℕ → Option (ℕ × ℕ)
first_hop zero i mask hop_info = none
first_hop (suc rounds) i mask hop_info =
    let rest = first_hop rounds (i + 1) (mask * 2 % 2 ^ 32) hop_info in
    if bit_and mask hop_info == 0 then rest else some (i, mask)

-- `order` is the parameter of DECLARE_HASHTABLE; the size of the table is 2 ^ order.
module _ (order : ℕ) where
  -- `hash_func_string`, with the last shift of `hs_hash32`
  unfoldable pub hash_func : Str → ℕ
  unfolding mix_hash hash_chars
  hash_func key = mix_hash (hash_chars 0 key) / 2 ^ (32 - order)

  -- `wrap_pos`
  unfoldable pub wrap_pos : ℕ → ℕ
  wrap_pos pos = bit_and pos (2 ^ order - 1)

  -- `wrap_pos (a - b)`, on `uint32_t`
  unfoldable pub wrap_difference : ℕ → ℕ → ℕ
  unfolding wrap_pos
  wrap_difference a b = wrap_pos ((a + (2 ^ 32 - b)) % 2 ^ 32)

  module _ {V : Type 0} where
    -- The loop of get, put and remove over the slots that `hop_info` marks. A round shifts `hop_info`,
    -- so 32 rounds are enough. A slot that is marked holds a key, see HashTable/Contents.
    unfoldable pub find_slot : ℕ → Table V → Str → ℕ → ℕ → Option ℕ
    unfolding wrap_pos is_key
    find_slot zero t key hop_info pos = none
    find_slot (suc rounds) t key hop_info pos =
        let rest = find_slot rounds t key (hop_info / 2) (wrap_pos (pos + 1)) in
        if hop_info == 0
        then none
        else (if bit_and hop_info 1 == 1 && is_key key (t pos).key then some pos else rest)

    -- The loop as the three functions start it
    unfoldable pub find_key : Table V → Str → Option ℕ
    unfolding find_slot hash_func
    find_key t key = find_slot hop_range t key (t (hash_func key)).hop_info (hash_func key)

    -- `hashtable_get`
    unfoldable pub hashtable_get : Table V → Str → Option V
    unfolding find_key
    hashtable_get t key = elim (find_key t key) [ none ↦ none | some pos ↦ some (t pos).value ]

    -- The swap in `find_closer_entry`: the entry at `hop_position` moves to the free position, and the
    -- bits at `check_position` follow.
    unfoldable pub swap_entry : Table V → ℕ → ℕ → ℕ → ℕ → ℕ → Table V
    unfolding set_entry set_hop
    swap_entry t free_position check_position check_distance hop_position mask =
        set_hop check_position
          (bit_or (bit_and (t check_position).hop_info (complement mask)) (2 ^ check_distance))
          (set_entry free_position (t hop_position).key (t hop_position).value t)

    -- `find_closer_entry`, from `check_distance` down: the position that is free now
    unfoldable pub closer_entry : ℕ → Table V → ℕ → Option (ℕ × Table V)
    unfolding first_hop wrap_pos wrap_difference swap_entry
    closer_entry zero t free_position = none
    closer_entry (suc d) t free_position =
        let check_position = wrap_difference free_position (suc d) in
        elim (first_hop (suc d) 0 1 (t check_position).hop_info) [
          | none ↦ closer_entry d t free_position
          | some (i, mask) ↦
              let hop_position = wrap_pos (check_position + i) in
              some
                (hop_position, swap_entry t free_position check_position (suc d) hop_position mask)
        ]

    unfoldable pub find_closer_entry : Table V → ℕ → Option (ℕ × Table V)
    unfolding closer_entry
    find_closer_entry t free_position = closer_entry (hop_range - 1) t free_position

    -- The linear search of `hashtable_put`: the distance and the position where it ends
    unfoldable pub find_free : ℕ → Table V → ℕ → ℕ → ℕ × ℕ
    unfolding wrap_pos
    find_free zero t free_distance pos = (free_distance, pos)
    find_free (suc rounds) t free_distance pos =
        let rest = find_free rounds t (free_distance + 1) (wrap_pos (pos + 1)) in
        if is_some (t pos).key then rest else (free_distance, pos)

    -- The entry of a new key, `distance` places from its hash position
    unfoldable pub write_entry : Table V → Str → V → ℕ → ℕ → ℕ → Table V
    unfolding set_entry set_hop
    write_entry t key value hash_pos distance free_pos =
        let t1 = set_entry free_pos (some key) value t in
        set_hop hash_pos (bit_or (t1 hash_pos).hop_info (2 ^ distance)) t1

    -- The do-while loop of `hashtable_put`; `none` means that the fuel ran out.
    unfoldable pub insert_near : ℕ → Table V → Str → V → ℕ → ℕ → ℕ → Option (Status × Table V)
    unfolding write_entry find_closer_entry wrap_difference
    insert_near zero t key value hash_pos free_distance free_pos = none
    insert_near (suc fuel) t key value hash_pos free_distance free_pos =
        elim (ltb free_distance hop_range) [
          | true ↦ some (success, write_entry t key value hash_pos free_distance free_pos)
          | false ↦ elim (find_closer_entry t free_pos) [
            | none ↦ some (full, t)
            | some (pos, t') ↦
                insert_near fuel t' key value hash_pos (wrap_difference pos hash_pos) pos
          ]
        ]

    -- `hashtable_put` for a caller that passes NULL for `prev_value`, as all do
    unfoldable pub hashtable_put : Table V → Str → V → Option (Status × Table V)
    unfolding find_key find_free insert_near set_entry
    hashtable_put t key value = elim (find_key t key) [
      | some pos ↦ some (success, set_entry pos (t pos).key value t)
      | none ↦
          let (free_distance, free_pos) = find_free (2 ^ (order - 1)) t 0 (hash_func key) in
          elim (ltb free_distance (2 ^ (order - 1))) [
            | true ↦
                insert_near (2 ^ (order - 1)) t key value (hash_func key) free_distance free_pos
            | false ↦ some (full, t)
          ]
    ]

    -- `hashtable_remove`, with a zeroed value: the value that it hands out, if it finds the key
    unfoldable pub hashtable_remove : V → Table V → Str → Option V × Table V
    unfolding find_key set_entry set_hop wrap_difference
    hashtable_remove null t key = elim (find_key t key) [
      | none ↦ (none, t)
      | some pos ↦
          let distance = wrap_difference pos (hash_func key) in
          (
            some (t pos).value,
            set_hop (hash_func key)
                (bit_and (t (hash_func key)).hop_info (complement (2 ^ distance)))
                (set_entry pos none null t),
          )
    ]

    -- `hashtable_create`
    unfoldable pub hashtable_create : V → Table V
    hashtable_create null pos = record { hop_info = 0; key = none; value = null }
