-- ===== src/HashTable/Removal.antt =====
-- What `hashtable_remove` of hashtable.h returns and does to what a table holds.
use cjet.Base.{ℕ, ◌+◌, ◌≤◌, none, some, arith, ◌≡◌, refl, ap, ◌∙◌, Option-cases, inl, inr}
use cjet.Base.Str.{Str}
use cjet.HashTable.{
  Table, wrap_pos, wrap_difference, hash_func, find_key, hashtable_get, hashtable_remove,
}
use cjet.HashTable.Places.{size_bounds, hash_func-lt, difference-place}
use cjet.HashTable.Contents.{IsConsistent, find_key-found, find_key-missing}
use cjet.HashTable.Edits.{Written, edit-Written}
use cjet.HashTable.Writes.{erase-Edit}

-- A removal hands out what a get would have, and takes the key out of what is held.
module _ (order : ℕ) (low : 5 ≤ order) (high : order ≤ 30) {V : Type 0} (null : V) (t : Table V)
    (key : Str) (good : IsConsistent order t) where
  pub hashtable_remove-get : (hashtable_remove order null t key).0 ≡ hashtable_get order t key
  unfolding hashtable_remove hashtable_get
  hashtable_remove-get = elim (Option-cases (find_key order t key)) [
    | inl e ↦ rw (e, hashtable_remove, hashtable_get) refl
    | inr (q, e) ↦ rw (e, hashtable_remove, hashtable_get) refl
  ]

  pub hashtable_remove-Written : Written order t key none (hashtable_remove order null t key).1
  unfolding hashtable_remove
  hashtable_remove-Written = elim (Option-cases (find_key order t key)) [
    | inl e ↦
        rw (e, hashtable_remove)
          (record {
            consistent = good;
            self = λ v. (
              λ (d, (hd, marked, has, value)).
                  absurd (find_key-missing order low high t key good e d marked has),
              λ n. absurd (cc),
            );
            others_there = λ k v ne h. h;
            others_back = λ k v ne h. h;
          })
    | inr (q, e) ↦
        let p0 = hash_func order key in
        let below = hash_func-lt order low high key in
        let (d, hd, marked, at, has) = find_key-found order low high t key q e in
        let has' : (t (wrap_pos order (p0 + d))).key ≡ some key = rw (← at) has in
        let diff : wrap_difference order q p0 ≡ d =
          ap (λ n. wrap_difference order n p0) at
          ∙ difference-place order low high p0 d below
              (omega (arith, size_bounds order low high)) in
        rw (e, hashtable_remove)
          (rw (diff, at)
            (edit-Written order low high t _ key none d good
              (erase-Edit order low high t good key d hd marked has' null)))
  ]
