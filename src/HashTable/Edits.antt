-- ===== src/HashTable/Edits.antt =====
-- What a table of hashtable.h holds after one entry was written, overwritten or erased.
use cjet.Base.{
  ℕ, ◌+◌, ◌^◌, ◌≤◌, ◌<◌, Option, none, some, ◌≡◌, ◌≢◌, sym, ap, ◌∙◌, Option-cases, inl, inr, ◌⊎◌,
  ◌↔◌,
}
use cjet.Base.Str.{Str}
use cjet.HashTable.{Table, wrap_pos, hash_func}
use cjet.HashTable.Places.{hash_func-lt}
use cjet.HashTable.Contents.{Marked, IsConsistent, Holds}

module _ (order : ℕ) {V : Type 0} where
  -- The table `s` holds `o` under the key, and under each other key what `t` holds.
  pub record Written (t : Table V) (key : Str) (o : Option V) (s : Table V) : Type 0 where
    pub consistent : IsConsistent order s
    pub self : (v : V) → Holds order s key v ↔ (o ≡ some v)
    pub others_there : (k : Str) (v : V) → k ≢ key → Holds order t k v → Holds order s k v
    pub others_back : (k : Str) (v : V) → k ≢ key → Holds order s k v → Holds order t k v

  -- One edit at the place `d` behind the hash position of the key: afterwards it holds the key with the
  -- value of `o` under its bit, or nothing; no other entry is lost.
  pub record Edit (t : Table V) (key : Str) (o : Option V) (d : ℕ) (s : Table V) : Type 0 where
    pub near : d < 32
    pub small : (p : ℕ) → p < 2 ^ order → (s p).hop_info < 2 ^ 32
    pub entry :
        (v : V)
        → o ≡ some v
        → Marked order s (hash_func order key) d
          × ((s (wrap_pos order (hash_func order key + d))).key ≡ some key)
          × ((s (wrap_pos order (hash_func order key + d))).value ≡ v)
    pub elsewhere :
        (q : ℕ)
        → q ≢ wrap_pos order (hash_func order key + d)
        → ((s q).key ≡ (t q).key) × ((s q).value ≡ (t q).value)
    pub marks_back :
        (p e : ℕ)
        → p < 2 ^ order
        → e < 32
        → Marked order s p e
        → ((o ≢ none) × (p ≡ hash_func order key) × (e ≡ d))
          ⊎ (Marked order t p e
              × (wrap_pos order (p + e) ≢ wrap_pos order (hash_func order key + d)))
    pub marks_there :
        (p e : ℕ)
        → p < 2 ^ order
        → e < 32
        → Marked order t p e
        → wrap_pos order (p + e) ≢ wrap_pos order (hash_func order key + d)
        → Marked order s p e
    pub lost :
        (p e : ℕ)
        → p < 2 ^ order
        → e < 32
        → Marked order t p e
        → wrap_pos order (p + e) ≡ wrap_pos order (hash_func order key + d)
        → (t (wrap_pos order (p + e))).key ≡ some key
    pub fresh :
        (e : ℕ)
        → e < 32
        → Marked order t (hash_func order key) e
        → wrap_pos order (hash_func order key + e) ≢ wrap_pos order (hash_func order key + d)
        → (t (wrap_pos order (hash_func order key + e))).key ≢ some key

module _ (order : ℕ) (low : 5 ≤ order) (high : order ≤ 30) {V : Type 0} (t s : Table V) (key : Str)
    (o : Option V) (d : ℕ) (good : IsConsistent order t) (edit : Edit order t key o d s) where
  abbrev p0 : ℕ
  p0 = hash_func order key

  abbrev f : ℕ
  f = wrap_pos order (p0 + d)

  below : p0 < 2 ^ order
  below = hash_func-lt order low high key

  -- The entry under the key, if there is one
  new_entry : o ≢ none → (v : V) × (o ≡ some v) × ((s f).key ≡ some key) × ((s f).value ≡ v)
  new_entry ne = elim (Option-cases o) [
    | inl e ↦ absurd (ne e)
    | inr (v, e) ↦ (let (marked, has, value) = edit.entry v e in (v, e, has, value))
  ]

  edit-Marked :
      (p e : ℕ)
      → p < 2 ^ order
      → e < 32
      → Marked order s p e
      → (k : Str) × ((s (wrap_pos order (p + e))).key ≡ some k) × (hash_func order k ≡ p)
  edit-Marked p e hp he marked = elim (edit.marks_back p e hp he marked) [
    | inl (ne, ep, ee) ↦ let (v, eo, has, value) = new_entry ne in (key, rw (ep, ee) has, sym ep)
    | inr (old, away) ↦
        let (k, has, home) = good.marked p e hp he old in
        (k, (edit.elsewhere (wrap_pos order (p + e)) away).0 ∙ has, home)
  ]

  -- A new entry and an old one of the same slot have different keys.
  new-old :
      (p e e' : ℕ)
      → o ≢ none
      → p ≡ p0
      → e ≡ d
      → e' < 32
      → Marked order t p e'
      → wrap_pos order (p + e') ≢ f
      → (s (wrap_pos order (p + e))).key ≢ (s (wrap_pos order (p + e'))).key
  new-old p e e' ne ep ee small old away same =
      let (v, eo, has, value) = new_entry ne in
      let here : (s (wrap_pos order (p + e))).key ≡ some key = rw (ep, ee) has in
      let key' : (t (wrap_pos order (p + e'))).key ≡ some key =
        sym (edit.elsewhere (wrap_pos order (p + e')) away).0 ∙ sym same ∙ here in
      edit.fresh e' small (rw (← ep) old) (λ at. away (ap (λ q. wrap_pos order (q + e')) ep ∙ at))
        (rw (← ep) key')

  edit_unique :
      (p e e' : ℕ)
      → p < 2 ^ order
      → e < 32
      → e' < 32
      → Marked order s p e
      → Marked order s p e'
      → (s (wrap_pos order (p + e))).key ≡ (s (wrap_pos order (p + e'))).key
      → e ≡ e'
  edit_unique p e e' hp he he' m m' same = elim (edit.marks_back p e hp he m) [
    | inl (ne, ep, ee) ↦ elim (edit.marks_back p e' hp he' m') [
      | inl (ne', ep', ee') ↦ ee ∙ sym ee'
      | inr (old', away') ↦ absurd (new-old p e e' ne ep ee he' old' away' same)
    ]
    | inr (old, away) ↦ elim (edit.marks_back p e' hp he' m') [
      | inl (ne', ep', ee') ↦ absurd (new-old p e' e ne' ep' ee' he old away (sym same))
      | inr (old', away') ↦ good.unique p e e' hp he he' old old' (
          sym (edit.elsewhere (wrap_pos order (p + e)) away).0
          ∙ same
          ∙ (edit.elsewhere (wrap_pos order (p + e')) away').0)
    ]
  ]

  edit_self : (v : V) → Holds order s key v → o ≡ some v
  edit_self v (e, (he, marked, has, value)) = elim (edit.marks_back p0 e below he marked) [
    | inl (ne, ep, ee) ↦
        let (v', eo, has', value') = new_entry ne in
        let same : v' ≡ v =
          sym value' ∙ ap (λ k. (s (wrap_pos order (p0 + k))).value) (sym ee) ∙ value in
        eo ∙ ap some same
    | inr (old, away) ↦
        absurd
          (edit.fresh e he old away (sym (edit.elsewhere (wrap_pos order (p0 + e)) away).0 ∙ has))
  ]

  edit-others_there : (k : Str) (v : V) → k ≢ key → Holds order t k v → Holds order s k v
  edit-others_there k v ne (e, (he, marked, has, value)) =
      let p = hash_func order k in
      let hp = hash_func-lt order low high k in
      let away : wrap_pos order (p + e) ≢ f =
        λ at. ne (let k' = edit.lost p e hp he marked at in cc (k', has)) in
      let (key', value') = edit.elsewhere (wrap_pos order (p + e)) away in
      (e, (he, edit.marks_there p e hp he marked away, key' ∙ has, value' ∙ value))

  edit-others_back : (k : Str) (v : V) → k ≢ key → Holds order s k v → Holds order t k v
  edit-others_back k v ne (e, (he, marked, has, value)) =
      let p = hash_func order k in
      elim (edit.marks_back p e (hash_func-lt order low high k) he marked) [
        | inl (present, ep, ee) ↦
            let (v', eo, has', value') = new_entry present in
            let here : (s (wrap_pos order (p + e))).key ≡ some key = rw (ep, ee) has' in
            absurd (ne (cc (here, has)))
        | inr (old, away) ↦
            let (key', value') = edit.elsewhere (wrap_pos order (p + e)) away in
            (e, (he, old, sym key' ∙ has, sym value' ∙ value))
      ]

  pub edit-Written : Written order t key o s
  edit-Written = record {
    consistent = record { small = edit.small; marked = edit-Marked; unique = edit_unique };
    self = λ v. (
      edit_self v,
      λ e. let (marked, has, value) = edit.entry v e in (d, (edit.near, marked, has, value)),
    );
    others_there = edit-others_there;
    others_back = edit-others_back;
  }
