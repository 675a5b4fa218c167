-- ===== src/Groups.antt =====
-- groups.c: the names of all user groups, and sets of groups as bits of a 32-bit number.
pub mod Bits
pub mod Names
use cjet.Base.{
  ℕ, suc, ◌+◌, ◌*◌, ◌^◌, ◌≤◌, Bool, true, false, not, ◌||◌, Option, none, some, List, [], ◌∷◌, ◌++◌,
  length, ltb, leb, ◌==◌, bit_and, bit_or, if◌then◌else◌,
}
use cjet.Base.Str.{Str, str_eq}
use cjet.Json.{Json, Items}

-- `all_groups`: NULL, or the names that were added, in order.
abbrev pub AllGroups : Type 0
AllGroups = Option (List Str)

-- `sizeof(group_t) * 8`
abbrev pub group_bits : ℕ
group_bits = 32

unfoldable pub is_in_groups : List Str → Str → Bool
is_in_groups [] name = false
is_in_groups (group ∷ groups) name = str_eq group name || is_in_groups groups name

-- `add_group`: `none` is -1, for a 33rd name
unfoldable pub add_group : List Str → Str → Option (List Str)
add_group groups name =
    if is_in_groups groups name
    then some groups
    else if leb group_bits (length groups)
    then none
    else some (groups ++ (name ∷ []))

-- The loop of `add_groups`: the names before a bad item stay added, whatever is returned.
unfoldable pub add_group_items : List Str → Items → Bool × List Str
add_group_items groups Items.nil = (true, groups)
add_group_items groups (Items.cons (Json.string name) items) = elim (add_group groups name) [
  | some groups' ↦ add_group_items groups' items
  | none ↦ (false, groups)
]
add_group_items groups (Items.cons _ items) = (false, groups)

-- `add_groups`
unfoldable pub add_groups : List Str → Json → Bool × List Str
add_groups groups (Json.array items) = add_group_items groups items
add_groups groups _ = (false, groups)

-- The inner loop of `get_groups`: `1 << j` for each name at index `j` that is equal. `add_group` keeps `j`
-- below 32, so that the shift stays within a `group_t`.
unfoldable pub group_mask : List Str → Str → ℕ → ℕ → ℕ
group_mask [] name j groups = groups
group_mask (group ∷ all) name j groups =
    group_mask all name (j + 1) (if str_eq group name then bit_or groups (2 ^ j) else groups)

unfoldable pub group_masks : List Str → Items → ℕ → ℕ
group_masks all Items.nil groups = groups
group_masks all (Items.cons (Json.string name) items) groups =
    group_masks all items (group_mask all name 0 groups)
group_masks all (Items.cons _ items) groups = group_masks all items groups

-- `get_groups`
unfoldable pub get_groups : AllGroups → Option Json → ℕ
get_groups none _ = 0
get_groups (some all) (some (Json.array items)) = group_masks all items 0
get_groups (some all) _ = 0

-- `has_access`
unfoldable pub has_access : AllGroups → ℕ → ℕ → Bool
has_access none has wants = true
has_access (some all) has wants = not (bit_and has wants == 0)
