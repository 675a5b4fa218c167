-- ===== src/HashTable/Refines.antt =====
-- The table of hashtable.h is the association list of State: table.c gives its users the one, the model
-- of the daemon has the other.
use cjet.Base.{
  ℕ, ◌≤◌, Option, none, some, List, [], ◌∷◌, arith, ◌≡◌, ◌≢◌, refl, sym, ap, ◌∙◌, Bool-cases,
  Option-cases, inl, inr, if◌then◌else◌,
}
use cjet.Base.Str.{Str, str_eq, str_eq_iff}
use cjet.Groups.Bits.{bit-zero}
use cjet.State.{table_get, table_put, table_remove}
use cjet.HashTable.{
  Table, Status, success, full, hash_func, hashtable_get, hashtable_put, hashtable_remove,
  hashtable_create,
}
use cjet.HashTable.Contents.{
  Marked, IsConsistent, hashtable_get-Holds, Holds-hashtable_get, hashtable_get_congr,
}
use cjet.HashTable.Edits.{Written}
use cjet.HashTable.Outcomes.{Unchanged, Outcome, hashtable_put-Outcome}
use cjet.HashTable.Removal.{hashtable_remove-get, hashtable_remove-Written}

table_get-table_put :
    (path other : Str) (owner : ℕ) (t : List (Str × ℕ))
    → table_get other (table_put path owner t)
      ≡ (if str_eq path other then some owner else table_get other t)
unfolding table_get table_put
table_get-table_put path other owner [] = refl
table_get-table_put path other owner ((k, o) ∷ t) = ground (
  arith,
  table_get-table_put path other owner t,
  str_eq_iff k path,
  str_eq_iff k other,
  str_eq_iff path other,
)

table_get-table_remove :
    (path other : Str) (t : List (Str × ℕ))
    → table_get other (table_remove path t)
      ≡ (if str_eq path other then none else table_get other t)
unfolding table_get table_remove
table_get-table_remove path other [] = ground arith
table_get-table_remove path other ((k, o) ∷ t) = ground (
  arith,
  table_get-table_remove path other t,
  str_eq_iff k path,
  str_eq_iff k other,
  str_eq_iff path other,
)

-- What the callers of the table do, and what they are told
pub data Op : Type 0 where
  put : Str → ℕ → Op
  remove : Str → Op
  get : Str → Op

pub data Reply : Type 0 where
  stored : Status → Reply
  found : Option ℕ → Reply

-- A list of calls; `none` means that a put ran out of fuel. A removed value is zeroed.
unfoldable pub run : ℕ → Table ℕ → List Op → Option (List Reply)
run order t [] = some []
run order t (put k v ∷ ops) = elim (hashtable_put order t k v) [
  | none ↦ none
  | some (status, s) ↦ elim (run order s ops) [ none ↦ none | some rs ↦ some (stored status ∷ rs) ]
]
run order t (remove k ∷ ops) =
    let (value, s) = hashtable_remove order 0 t k in
    elim (run order s ops) [ none ↦ none | some rs ↦ some (found value ∷ rs) ]
run order t (get k ∷ ops) = elim (run order t ops) [
  | none ↦ none
  | some rs ↦ some (found (hashtable_get order t k) ∷ rs)
]

-- The replies that fit to an association list: a put of a new key may be refused, and then does
-- nothing; each other reply is what the list has.
abbrev pub Explains : List (Str × ℕ) → List Op → List Reply → Type 0
Explains l [] [] = Unit
Explains l (put k v ∷ ops) (stored success ∷ rs) = Explains (table_put k v l) ops rs
Explains l (put k v ∷ ops) (stored full ∷ rs) = (table_get k l ≡ none) × Explains l ops rs
Explains l (remove k ∷ ops) (found o ∷ rs) =
    (o ≡ table_get k l) × Explains (table_remove k l) ops rs
Explains l (get k ∷ ops) (found o ∷ rs) = (o ≡ table_get k l) × Explains l ops rs
Explains l _ _ = ⊥

module _ (order : ℕ) (low : 5 ≤ order) (high : order ≤ 30) where
  -- A table that stands for an association list
  pub record Represents (t : Table ℕ) (l : List (Str × ℕ)) : Type 0 where
    pub consistent : IsConsistent order t
    pub reads : (k : Str) → hashtable_get order t k ≡ table_get k l

  no_marks : (p d : ℕ) → Marked order {V = ℕ} (hashtable_create order 0) p d → ⊥
  unfolding hashtable_create
  no_marks p d m = cc (m, bit-zero d)

  pub hashtable_create-Represents : Represents (hashtable_create order 0) []
  unfolding table_get
  hashtable_create-Represents = record {
    consistent = record {
      small = λ p hp. unfold hashtable_create in (omega arith);
      marked = λ p d hp hd m. absurd (no_marks p d m);
      unique = λ p d e hp hd he m m' same. absurd (no_marks p d m);
    };
    reads = λ k.
        let t0 : Table ℕ = hashtable_create order 0 in
        elim (Option-cases (hashtable_get order t0 k)) [
          | inl e ↦ e
          | inr (v, e) ↦
              let (d, (hd, m, has, value)) = hashtable_get-Holds order low high t0 k v e in
              absurd (no_marks (hash_func order k) d m)
        ];
  }

  Unchanged-Represents :
      (t s : Table ℕ) (l : List (Str × ℕ)) → Represents t l → Unchanged order t s → Represents s l
  Unchanged-Represents t s l rep same = record {
    consistent = same.consistent;
    reads = λ k.
        hashtable_get_congr order low high s t k same.consistent rep.consistent (same.back k)
          (same.there k)
        ∙ rep.reads k;
  }

  Written-get_self :
      (t s : Table ℕ) (key : Str) (o : Option ℕ)
      → Written order t key o s
      → (k : Str) → key ≡ k
      → hashtable_get order s k ≡ o
  Written-get_self t s key (some v) w k e =
      rw (← e) (Holds-hashtable_get order low high s key w.consistent v ((w.self v).1 refl))
  Written-get_self t s key none w k e = elim (Option-cases (hashtable_get order s key)) [
    | inl n ↦ rw (← e) n
    | inr (v, h) ↦
        absurd (let n = (w.self v).0 (hashtable_get-Holds order low high s key v h) in cc n)
  ]

  -- What a written table reads under a key
  Written-get :
      (t s : Table ℕ) (key : Str) (o : Option ℕ)
      → IsConsistent order t
      → Written order t key o s
      → (k : Str) → hashtable_get order s k ≡ (if str_eq key k then o else hashtable_get order t k)
  Written-get t s key o good w k = elim (Bool-cases (str_eq key k)) [
    | inl same ↦ rw same (Written-get_self t s key o w k ((str_eq_iff key k).0 same))
    | inr other ↦
        let ne : k ≢ key = λ e. cc (other, (str_eq_iff key k).1 (sym e)) in
        rw other (
          hashtable_get_congr order low high s t k w.consistent good (λ v h. w.others_back k v ne h)
            (λ v h. w.others_there k v ne h))
  ]

  -- Only a new key is refused.
  abbrev pub Refused : List (Str × ℕ) → Str → Status → Type 0
  Refused l key success = Unit
  Refused l key full = table_get key l ≡ none

  Absent-Refused :
      (t : Table ℕ) (l : List (Str × ℕ)) (key : Str) (v : ℕ)
      → Represents t l
      → (status : Status) (s : Table ℕ) → Outcome order t key v status s
      → Refused l key status
  Absent-Refused t l key v rep success s w = tt
  Absent-Refused t l key v rep full s (same, absent) =
      sym (rep.reads key) ∙ (elim (Option-cases (hashtable_get order t key)) [
        | inl e ↦ e
        | inr (x, e) ↦ absurd (absent x (hashtable_get-Holds order low high t key x e))
      ])

  put_outcome :
      (t : Table ℕ) (l : List (Str × ℕ)) (key : Str) (v : ℕ)
      → Represents t l
      → (status : Status) (s : Table ℕ) → Outcome order t key v status s
      → Represents s (elim status [ success ↦ table_put key v l | full ↦ l ])
  put_outcome t l key v rep full s (same, absent) = Unchanged-Represents t s l rep same
  put_outcome t l key v rep success s w = record {
    consistent = w.consistent;
    reads = λ k.
        Written-get t s key (some v) rep.consistent w k
        ∙ ap (λ o. if str_eq key k then some v else o) (rep.reads k)
        ∙ sym (table_get-table_put key k v l);
  }

  -- A put does to the table what `table_put` does to the list, or finds it full and changes nothing.
  pub hashtable_put-table_put :
      (t : Table ℕ) (l : List (Str × ℕ)) (key : Str) (v : ℕ)
      → Represents t l
      → (status : Status) × (s : Table ℕ) × (hashtable_put order t key v ≡ some (status, s))
        × Refused l key status
        × Represents s (elim status [ success ↦ table_put key v l | full ↦ l ])
  hashtable_put-table_put t l key v rep =
      let (status, s, done, out) = hashtable_put-Outcome order low high key v t rep.consistent in
      (
        status,
        s,
        done,
        Absent-Refused t l key v rep status s out,
        put_outcome t l key v rep status s out,
      )

  pub hashtable_remove-table_remove :
      (t : Table ℕ) (l : List (Str × ℕ)) (key : Str)
      → Represents t l
      → ((hashtable_remove order 0 t key).0 ≡ table_get key l)
        × Represents (hashtable_remove order 0 t key).1 (table_remove key l)
  hashtable_remove-table_remove t l key rep =
      let w = hashtable_remove-Written order low high 0 t key rep.consistent in
      (
        hashtable_remove-get order low high 0 t key rep.consistent ∙ rep.reads key,
        record {
          consistent = w.consistent;
          reads = λ k.
              Written-get t (hashtable_remove order 0 t key).1 key none rep.consistent w k
              ∙ ap (λ o. if str_eq key k then none else o) (rep.reads k)
              ∙ sym (table_get-table_remove key k l);
        },
      )

  stored-Explains :
      (l : List (Str × ℕ)) (k : Str) (v : ℕ) (ops : List Op) (rs : List Reply) (status : Status)
      → Refused l k status
      → Explains (elim status [ success ↦ table_put k v l | full ↦ l ]) ops rs
      → Explains l (put k v ∷ ops) (stored status ∷ rs)
  stored-Explains l k v ops rs success new fits = fits
  stored-Explains l k v ops rs full new fits = (new, fits)

  run-Represents :
      (ops : List Op) (t : Table ℕ) (l : List (Str × ℕ))
      → Represents t l
      → (rs : List Reply) × (run order t ops ≡ some rs) × Explains l ops rs
  unfolding run
  run-Represents [] t l rep = ([], refl, tt)
  run-Represents (get k ∷ ops) t l rep =
      let (rs, done, fits) = run-Represents ops t l rep in
      (found (hashtable_get order t k) ∷ rs, ground (arith, done), (rep.reads k, fits))
  run-Represents (remove k ∷ ops) t l rep =
      let (value, next) = hashtable_remove-table_remove t l k rep in
      let (rs, done, fits) =
        run-Represents ops (hashtable_remove order 0 t k).1 (table_remove k l) next in
      (found (hashtable_remove order 0 t k).0 ∷ rs, ground (arith, done), (value, fits))
  run-Represents (put k v ∷ ops) t l rep =
      let (status, s, one, new, next) = hashtable_put-table_put t l k v rep in
      let (rs, done, fits) =
        run-Represents ops s (elim status [ success ↦ table_put k v l | full ↦ l ]) next in
      (stored status ∷ rs, ground (arith, one, done), stored-Explains l k v ops rs status new fits)

  -- For tables of 2^5 to 2^30 slots: every list of puts, removals and gets on a new hopscotch
  -- table, swaps of entries included, runs to its end, and its replies are those of the
  -- association list that stands for the table of elements, except that a put of a new key may be
  -- refused as full and then changes nothing.
  pub run-Explains :
      (ops : List Op)
      → (rs : List Reply) × (run order (hashtable_create order 0) ops ≡ some rs)
        × Explains [] ops rs
  run-Explains ops = run-Represents ops (hashtable_create order 0) [] hashtable_create-Represents
