-- ===== src/Groups/Names.antt =====
-- The sets of groups of groups.c against the names that they stand for.
use cjet.Base.{
  ℕ, ◌+◌, ◌^◌, ◌≤◌, Bool, true, false, not, ◌&&◌, ◌||◌, some, List, [], ◌∷◌, length, ◌==◌, ==_iff,
  bit_and, bit_or, if◌then◌else◌, arith, ◌≡◌, ◌↔◌, Bool-cases, Option-cases, length-append, inl,
  inr,
}
use cjet.Base.Str.{Str, str_eq, str_eq_iff, str_eq_refl}
use cjet.Json.{Json, Items}
use cjet.Groups.{
  is_in_groups, group_mask, group_masks, get_groups, has_access, add_group, add_group_items,
  add_groups, group_bits,
}
use cjet.Groups.Bits.{bit, bit-zero, bit-bit_or, bit-power, bit_and-shared, bit_and-found}

-- The name stands at `k` of a list that starts at `j`.
name_at : List Str → Str → ℕ → ℕ → Bool
name_at [] name j k = false
name_at (group ∷ all) name j k = str_eq group name && k == j || name_at all name (j + 1) k

bit-group_mask :
    (all : List Str) (name : Str) (j groups k : ℕ)
    → bit k (group_mask all name j groups) ≡ bit k groups || name_at all name j k
unfolding group_mask name_at
bit-group_mask [] name j groups k = ground arith
bit-group_mask (group ∷ all) name j groups k = ground (
  arith,
  bit-group_mask all name (j + 1) (if str_eq group name then bit_or groups (2 ^ j) else groups) k,
  bit-bit_or k groups (2 ^ j),
  bit-power k j,
)

-- Some item is the name at `k`.
listed : List Str → Items → ℕ → Bool
listed all Items.nil k = false
listed all (Items.cons (Json.string name) items) k = name_at all name 0 k || listed all items k
listed all (Items.cons _ items) k = listed all items k

bit-group_masks :
    (all : List Str) (items : Items) (groups k : ℕ)
    → bit k (group_masks all items groups) ≡ bit k groups || listed all items k
unfolding group_masks listed
bit-group_masks all Items.nil groups k = ground arith
bit-group_masks all (Items.cons (Json.string name) items) groups k = ground (
  arith,
  bit-group_masks all items (group_mask all name 0 groups) k,
  bit-group_mask all name 0 groups k,
)
bit-group_masks all (Items.cons Json.null items) groups k = bit-group_masks all items groups k
bit-group_masks all (Items.cons (Json.boolean b) items) groups k =
    bit-group_masks all items groups k
bit-group_masks all (Items.cons (Json.number a b) items) groups k =
    bit-group_masks all items groups k
bit-group_masks all (Items.cons (Json.array xs) items) groups k = bit-group_masks all items groups k
bit-group_masks all (Items.cons (Json.object fs) items) groups k =
    bit-group_masks all items groups k

-- The name is one of the strings among the items.
unfoldable pub mentions : Str → Items → Bool
mentions name Items.nil = false
mentions name (Items.cons (Json.string s) items) = str_eq s name || mentions name items
mentions name (Items.cons _ items) = mentions name items

listed-found :
    (all : List Str) (items : Items) (k : ℕ)
    → listed all items k ≡ true
    → (name : Str) × (mentions name items ≡ true) × (name_at all name 0 k ≡ true)
unfolding listed mentions
listed-found all Items.nil k h = absurd (ground arith)
listed-found all (Items.cons (Json.string name) items) k h =
    elim (Bool-cases (name_at all name 0 k)) [
      | inl here ↦ (name, ground (arith, str_eq_refl name), here)
      | inr not_here ↦
          (let (s, m, at) = listed-found all items k (ground arith) in (s, ground arith, at))
    ]
listed-found all (Items.cons Json.null items) k h = listed-found all items k h
listed-found all (Items.cons (Json.boolean b) items) k h = listed-found all items k h
listed-found all (Items.cons (Json.number a b) items) k h = listed-found all items k h
listed-found all (Items.cons (Json.array xs) items) k h = listed-found all items k h
listed-found all (Items.cons (Json.object fs) items) k h = listed-found all items k h

mentions-listed :
    (all : List Str) (items : Items) (name : Str) (k : ℕ)
    → mentions name items ≡ true
    → name_at all name 0 k ≡ true
    → listed all items k ≡ true
unfolding listed mentions
mentions-listed all Items.nil name k m at = absurd (ground arith)
mentions-listed all (Items.cons (Json.string s) items) name k m at =
    elim (Bool-cases (str_eq s name)) [
      | inl same ↦ (let e : s ≡ name = (str_eq_iff s name).0 same in rw e (ground arith))
      | inr other ↦ ground (arith, mentions-listed all items name k)
    ]
mentions-listed all (Items.cons Json.null items) name k m at = mentions-listed all items name k m at
mentions-listed all (Items.cons (Json.boolean b) items) name k m at =
    mentions-listed all items name k m at
mentions-listed all (Items.cons (Json.number a b) items) name k m at =
    mentions-listed all items name k m at
mentions-listed all (Items.cons (Json.array xs) items) name k m at =
    mentions-listed all items name k m at
mentions-listed all (Items.cons (Json.object fs) items) name k m at =
    mentions-listed all items name k m at

name_at-start : (all : List Str) (name : Str) (j k : ℕ) → name_at all name j k ≡ true → j ≤ k
unfolding name_at
name_at-start [] name j k h = absurd (ground arith)
name_at-start (group ∷ all) name j k h =
    ground (arith, name_at-start all name (j + 1) k, ==_iff k j)

-- One name at a place
name_at_same :
    (all : List Str) (s t : Str) (j k : ℕ)
    → name_at all s j k ≡ true
    → name_at all t j k ≡ true
    → s ≡ t
unfolding name_at
name_at_same [] s t j k hs ht = absurd (ground arith)
name_at_same (group ∷ all) s t j k hs ht = elim (Bool-cases (k == j)) [
  | inl here ↦
      (let later : (u : Str) → name_at all u (j + 1) k ≡ true → j + 1 ≤ k =
          (λ u. name_at-start all u (j + 1) k) in
        ground (arith, ==_iff k j, later s, later t, str_eq_iff group s, str_eq_iff group t))
  | inr not_here ↦ name_at_same all s t (j + 1) k (ground arith) (ground arith)
]

name_at-is_in_groups :
    (all : List Str) (name : Str) (j k : ℕ)
    → name_at all name j k ≡ true
    → is_in_groups all name ≡ true
unfolding name_at is_in_groups
name_at-is_in_groups [] name j k h = absurd (ground arith)
name_at-is_in_groups (group ∷ all) name j k h =
    ground (arith, name_at-is_in_groups all name (j + 1) k)

is_in_groups-name_at :
    (all : List Str) (name : Str) (j : ℕ)
    → is_in_groups all name ≡ true
    → (k : ℕ) × (name_at all name j k ≡ true)
unfolding name_at is_in_groups
is_in_groups-name_at [] name j h = absurd (ground arith)
is_in_groups-name_at (group ∷ all) name j h = elim (Bool-cases (str_eq group name)) [
  | inl here ↦ (j, ground (arith, ==_iff j j))
  | inr not_here ↦
      (let (k, at) = is_in_groups-name_at all name (j + 1) (ground arith) in (k, ground arith))
]

-- With groups set up, the bit test of has_access on the sets of get_groups succeeds exactly if
-- some registered group is named by both.
pub has_access-shared_group :
    (all : List Str) (grants wants : Items)
    → (has_access
          (some all)
          (get_groups (some all) (some (Json.array grants)))
          (get_groups (some all) (some (Json.array wants)))
        ≡ true)
      ↔ ((name : Str) × (is_in_groups all name ≡ true)
          × (mentions name grants ≡ true)
          × (mentions name wants ≡ true))
unfolding has_access get_groups
has_access-shared_group all grants wants = (shared, allowed)
  where
    a : ℕ
    a = group_masks all grants 0

    b : ℕ
    b = group_masks all wants 0

    shared :
        (not (bit_and a b == 0) ≡ true)
        → (name : Str) × (is_in_groups all name ≡ true)
          × (mentions name grants ≡ true)
          × (mentions name wants ≡ true)
    shared h =
        let (k, ka, kb) =
          bit_and-found a a b (omega arith) (ground (arith, ==_iff (bit_and a b) 0)) in
        let (s, ms, s_at) =
          listed-found all grants k (ground (arith, bit-group_masks all grants 0 k, bit-zero k)) in
        let (t, mt, t_at) =
          listed-found all wants k (ground (arith, bit-group_masks all wants 0 k, bit-zero k)) in
        let same : s ≡ t = name_at_same all s t 0 k s_at t_at in
        (s, name_at-is_in_groups all s 0 k s_at, ms, rw same mt)

    allowed :
        (name : Str) × (is_in_groups all name ≡ true)
          × (mentions name grants ≡ true)
          × (mentions name wants ≡ true)
        → not (bit_and a b == 0) ≡ true
    allowed (name, known, mg, mw) =
        let (k, at) = is_in_groups-name_at all name 0 known in
        let ka : bit k a ≡ true =
          ground (arith, bit-group_masks all grants 0 k, mentions-listed all grants name k mg at) in
        let kb : bit k b ≡ true =
          ground (arith, bit-group_masks all wants 0 k, mentions-listed all wants name k mw at) in
        ground (arith, bit_and-shared k a b ka kb, ==_iff (bit_and a b) 0)

add_group-bound :
    (groups : List Str) (name : Str) {added : List Str}
    → add_group groups name ≡ some added
    → length groups ≤ group_bits
    → length added ≤ group_bits
unfolding add_group
add_group-bound groups name {added} done bound = grind (arith, length-append groups (name ∷ []))

add_group_items-bound :
    (groups : List Str) (items : Items)
    → length groups ≤ group_bits
    → length (add_group_items groups items).1 ≤ group_bits
unfolding add_group_items
add_group_items-bound groups Items.nil bound = bound
add_group_items-bound groups (Items.cons (Json.string name) items) bound =
    elim (Option-cases (add_group groups name)) [
      | inl full ↦ ground (arith, full)
      | inr (added, done) ↦ ground (
        arith,
        add_group_items-bound added items (add_group-bound groups name {added = added} done bound),
      )
    ]
add_group_items-bound groups (Items.cons Json.null items) bound = bound
add_group_items-bound groups (Items.cons (Json.boolean b) items) bound = bound
add_group_items-bound groups (Items.cons (Json.number a b) items) bound = bound
add_group_items-bound groups (Items.cons (Json.array xs) items) bound = bound
add_group_items-bound groups (Items.cons (Json.object fs) items) bound = bound

-- Adding groups never registers more names than a group set has bits.
pub add_groups-bound :
    (groups : List Str) (access : Json)
    → length groups ≤ group_bits
    → length (add_groups groups access).1 ≤ group_bits
unfolding add_groups
add_groups-bound groups (Json.array items) bound = add_group_items-bound groups items bound
add_groups-bound groups Json.null bound = bound
add_groups-bound groups (Json.boolean b) bound = bound
add_groups-bound groups (Json.number a b) bound = bound
add_groups-bound groups (Json.string t) bound = bound
add_groups-bound groups (Json.object fs) bound = bound
