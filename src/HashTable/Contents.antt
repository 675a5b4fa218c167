-- ===== src/HashTable/Contents.antt =====
-- What a table of hashtable.h holds: the invariant of the bits, and the meaning of `hashtable_get`.
use cjet.Base.{
  ℕ, ◌+◌, ◌^◌, ◌≤◌, ◌<◌, true, Option, none, some, arith, ◌≡◌, ◌≢◌, sym, ap, ◌∙◌, Option-cases, inl,
  inr,
}
use cjet.Base.Str.{Str}
use cjet.Groups.Bits.{bit}
use cjet.HashTable.{Table, wrap_pos, hash_func, find_slot, find_key, hashtable_get}
use cjet.HashTable.Places.{place-zero, hash_func-lt}
use cjet.HashTable.Search.{find_slot-found, find_slot-missing}

module _ (order : ℕ) {V : Type 0} where
  abbrev pub Marked : Table V → ℕ → ℕ → Type 0
  Marked t p d = bit d (t p).hop_info ≡ true

  -- Each bit leads to a key that hashes to its slot, and two bits of a slot to different keys.
  pub record IsConsistent (t : Table V) : Type 0 where
    pub small : (p : ℕ) → p < 2 ^ order → (t p).hop_info < 2 ^ 32
    pub marked :
        (p d : ℕ)
        → p < 2 ^ order
        → d < 32
        → Marked t p d
        → (k : Str) × ((t (wrap_pos order (p + d))).key ≡ some k) × (hash_func order k ≡ p)
    pub unique :
        (p d e : ℕ)
        → p < 2 ^ order
        → d < 32
        → e < 32
        → Marked t p d
        → Marked t p e
        → (t (wrap_pos order (p + d))).key ≡ (t (wrap_pos order (p + e))).key
        → d ≡ e

  -- The key with the value, under one of the bits of its hash position
  abbrev pub HoldsAt : Table V → Str → V → ℕ → Type 0
  HoldsAt t key v d =
      (d < 32)
      × Marked t (hash_func order key) d
      × ((t (wrap_pos order (hash_func order key + d))).key ≡ some key)
      × ((t (wrap_pos order (hash_func order key + d))).value ≡ v)

  abbrev pub Holds : Table V → Str → V → Type 0
  Holds t key v = (d : ℕ) × HoldsAt t key v d

  module _ (low : 5 ≤ order) (high : order ≤ 30) (t : Table V) (key : Str) where
    -- The search starts at the place 0.
    from_start :
        (o : Option ℕ)
        → find_key order t key ≡ o
        → find_slot order 32 t key
            (t (hash_func order key)).hop_info
            (wrap_pos order (hash_func order key + 0))
          ≡ o
    unfolding find_key
    from_start o e =
        rw (place-zero order low high (hash_func order key) (hash_func-lt order low high key)) e

    place-zero_add :
        (d : ℕ)
        → wrap_pos order (hash_func order key + (0 + d)) ≡ wrap_pos order (hash_func order key + d)
    place-zero_add d = ap (λ k. wrap_pos order (hash_func order key + k)) (omega arith)

    pub find_key-found :
        (q : ℕ)
        → find_key order t key ≡ some q
        → (d : ℕ) × (d < 32)
          × Marked t (hash_func order key) d
          × (q ≡ wrap_pos order (hash_func order key + d))
          × ((t q).key ≡ some key)
    find_key-found q found =
        let h = hash_func order key in
        let (d, small, marked, at, has) =
          find_slot-found order low high t key h (hash_func-lt order low high key) 32 0
            (t h).hop_info q (omega arith) (from_start (some q) found) in
        (d, small, marked, at ∙ place-zero_add d, has)

    pub find_key-missing :
        IsConsistent t
        → find_key order t key ≡ none
        → (d : ℕ) → Marked t (hash_func order key) d
        → (t (wrap_pos order (hash_func order key + d))).key ≢ some key
    find_key-missing good missing d marked =
        let h = hash_func order key in
        let below = hash_func-lt order low high key in
        rw (← place-zero_add d) (
          find_slot-missing order low high t key h below 32 0 (t h).hop_info d (omega arith)
            (good.small h below) (from_start none missing) marked)

    pub hashtable_get-Holds : (v : V) → hashtable_get order t key ≡ some v → Holds t key v
    unfolding hashtable_get
    hashtable_get-Holds v got = elim (Option-cases (find_key order t key)) [
      | inl e ↦ absurd (ground (arith, got, e))
      | inr (q, e) ↦
          let (d, small, marked, at, has) = find_key-found q e in
          let value : (t q).value ≡ v = ground (arith, e) in
          (d, (small, marked, rw (← at) has, rw (← at) value))
    ]

    pub Holds-hashtable_get :
        IsConsistent t → (v : V) → Holds t key v → hashtable_get order t key ≡ some v
    unfolding hashtable_get
    Holds-hashtable_get good v (d, (small, marked, has, value)) =
        elim (Option-cases (find_key order t key)) [
          | inl e ↦ absurd (find_key-missing good e d marked has)
          | inr (q, e) ↦
              let h = hash_func order key in
              let (d', small', marked', at, has') = find_key-found q e in
              let same : d' ≡ d =
                good.unique h d' d (hash_func-lt order low high key) small' small marked' marked
                  (rw (← at) has' ∙ sym has) in
              let here : q ≡ wrap_pos order (h + d) = at ∙ ap (λ k. wrap_pos order (h + k)) same in
              let found : (t q).value ≡ v = rw here value in ground (arith, e, found)
        ]

-- Two tables that hold the same under a key give the same for it.
pub hashtable_get_congr :
    (order : ℕ) {V : Type 0}
    → 5 ≤ order
    → order ≤ 30
    → (t s : Table V) (key : Str) → IsConsistent order t
    → IsConsistent order s
    → ((v : V) → Holds order t key v → Holds order s key v)
    → ((v : V) → Holds order s key v → Holds order t key v)
    → hashtable_get order t key ≡ hashtable_get order s key
hashtable_get_congr order low high t s key gt gs there back =
    elim (Option-cases (hashtable_get order t key)) [
      | inr (v, e) ↦
          e
          ∙ sym (
              Holds-hashtable_get order low high s key gs v
                (there v (hashtable_get-Holds order low high t key v e)))
      | inl e ↦ elim (Option-cases (hashtable_get order s key)) [
        | inl n ↦ e ∙ sym n
        | inr (v, n) ↦ absurd (
            let k =
              Holds-hashtable_get order low high t key gt v
                (back v (hashtable_get-Holds order low high s key v n)) in
            ground (arith, k, e))
      ]
    ]
