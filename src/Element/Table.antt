-- ===== src/Element/Table.antt =====
-- The table of elements (table.c) around `remove_element` of element.c.
use cjet.Base.{
  ℕ, false, none, some, ◌≡◌, refl, List, [], ◌∷◌, arith, Bool-cases, inl, inr, if◌then◌else◌,
}
use cjet.Base.Str.{Str, str_eq, str_eq_iff, str_eq_refl}
use cjet.State.{Element, World, table_get, table_put, table_remove}
use cjet.Element.{remove_element}

table_get-table_remove :
    (path : Str) (t : List (Str × ℕ)) → table_get path (table_remove path t) ≡ none
unfolding table_get table_remove
table_get-table_remove path [] = refl
table_get-table_remove path ((k, owner) ∷ t) = ground (arith, table_get-table_remove path t)

table_get-table_remove_other :
    (path other : Str) (t : List (Str × ℕ))
    → str_eq path other ≡ false
    → table_get other (table_remove path t) ≡ table_get other t
unfolding table_get table_remove
table_get-table_remove_other path other [] differ = refl
table_get-table_remove_other path other ((k, owner) ∷ t) differ = ground (
  arith,
  table_get-table_remove_other path other t differ,
  str_eq_iff k path,
  str_eq_iff k other,
  str_eq_iff path other,
)

table_get-table_put :
    (path : Str) (owner : ℕ) (t : List (Str × ℕ))
    → table_get path t ≡ none
    → table_get path (table_put path owner t) ≡ some owner
unfolding table_get table_put
table_get-table_put path owner [] new = ground (arith, str_eq_refl path)
table_get-table_put path owner ((k, o) ∷ t) new = ground (arith, table_get-table_put path owner t)

-- After an element is removed its path has no owner in the table of elements and every other path
-- has the owner it had.
pub remove_element-table :
    (e : Element) (w : World) (path : Str)
    → table_get path (remove_element e w).element_table
      ≡ (if str_eq e.path path then none else table_get path w.element_table)
unfolding remove_element
remove_element-table e w path = elim (Bool-cases (str_eq e.path path)) [
  | inl same ↦
      (let q : e.path ≡ path = (str_eq_iff e.path path).0 same in
        ground (arith, q, table_get-table_remove path w.element_table))
  | inr differ ↦ ground (arith, table_get-table_remove_other e.path path w.element_table differ)
]
