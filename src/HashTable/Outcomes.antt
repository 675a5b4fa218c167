-- ===== src/HashTable/Outcomes.antt =====
-- What `hashtable_put` of hashtable.h does to what a table holds.
use cjet.Base.{
  ℕ, zero, suc, ◌+◌, ◌-◌, ◌^◌, ◌≤◌, ◌<◌, true, none, some, ltb, arith, ◌≡◌, ◌≢◌, refl, ap, ◌∙◌,
  Bool-cases, Option-cases, inl, inr,
}
use native.Mathlib.Nat.{pow-le-pow_right}
use cjet.Base.Str.{Str}
use cjet.HashTable.{
  Table, Status, success, full, wrap_pos, wrap_difference, hash_func, find_key, find_closer_entry,
  find_free, insert_near, write_entry, set_entry, hashtable_put,
}
use cjet.HashTable.Places.{
  size_bounds, hash_func-lt, place-lt, place-zero, place-suc, difference-place, place_nearer,
}
use cjet.HashTable.Contents.{IsConsistent, Holds, find_key-found, find_key-missing}
use cjet.HashTable.Moves.{IsFree, none-IsFree}
use cjet.HashTable.Closer.{Swapped, find_closer_entry-Swapped}
use cjet.HashTable.Edits.{Written, edit-Written}
use cjet.HashTable.Writes.{overwrite-Edit, write_entry-Edit}

module _ (order : ℕ) {V : Type 0} where
  -- Two tables that hold the same
  pub record Unchanged (t s : Table V) : Type 0 where
    pub consistent : IsConsistent order s
    pub there : (key : Str) (v : V) → Holds order t key v → Holds order s key v
    pub back : (key : Str) (v : V) → Holds order s key v → Holds order t key v

  abbrev pub Absent : Table V → Str → Type 0
  Absent t key = (v : V) → Holds order t key v → ⊥

  -- A put that succeeds has written the key. One that finds the table full had a new key, and has changed
  -- nothing of what is held.
  abbrev pub Outcome : Table V → Str → V → Status → Table V → Type 0
  Outcome t key v success s = Written order t key (some v) s
  Outcome t key v full s = Unchanged t s × Absent t key

  -- A swap before a put does not show.
  after_swap :
      (t : Table V) (f q : ℕ) (s : Table V)
      → Swapped order t f q s
      → (key : Str) (v : V) (status : Status) (u : Table V) → Outcome s key v status u
      → Outcome t key v status u
  after_swap t f q s swap key v success u w = record {
    consistent = w.consistent;
    self = w.self;
    others_there = λ k x ne h. w.others_there k x ne (swap.there k x h);
    others_back = λ k x ne h. swap.back k x (w.others_back k x ne h);
  }
  after_swap t f q s swap key v full u (w, absent) = (
    record {
      consistent = w.consistent;
      there = λ k x h. w.there k x (swap.there k x h);
      back = λ k x h. swap.back k x (w.back k x h);
    },
    λ x h. absent x (swap.there key x h),
  )

module _ (order : ℕ) (low : 5 ≤ order) (high : order ≤ 30) {V : Type 0} (key : Str) (v : V) where
  abbrev p0 : ℕ
  p0 = hash_func order key

  below : p0 < 2 ^ order
  below = hash_func-lt order low high key

  -- The loop ends before the fuel, since each swap brings the free slot nearer.
  insert_near-Outcome :
      (fuel : ℕ) (t : Table V) (d f : ℕ)
      → d < fuel
      → d < 2 ^ order
      → f ≡ wrap_pos order (p0 + d)
      → IsConsistent order t
      → IsFree order t f
      → Absent order t key
      → (status : Status) × (s : Table V) × (insert_near order fuel t key v p0 d f
          ≡ some (status, s))
        × Outcome order t key v status s
  unfolding insert_near
  insert_near-Outcome zero t d f enough hd at good free absent = absurd (omega arith)
  insert_near-Outcome (suc fuel) t d f enough hd at good free absent =
      elim (Bool-cases (ltb d 32)) [
        | inl near ↦
            let free' : IsFree order t (wrap_pos order (p0 + d)) = rw (← at) free in
            let edit =
              write_entry-Edit order low high t good key d (ground arith) free'
                (λ e he m has. absent _ (e, (he, m, has, refl))) v in
            (
              success,
              write_entry order t key v p0 d f,
              ground (arith, near),
              rw at (edit-Written order low high t _ key (some v) d good edit),
            )
        | inr far ↦ elim (Option-cases (find_closer_entry order t f)) [
          | inl e ↦ (
            full,
            t,
            ground (arith, e),
            (record { consistent = good; there = λ k x h. h; back = λ k x h. h }, absent),
          )
          | inr ((q, s), e) ↦
              let wide = size_bounds order low high in
              let hf : f < 2 ^ order = rw at (place-lt order low high p0 d below hd) in
              let swap = find_closer_entry-Swapped order low high t f q s good hf free e in
              let d' = d + swap.step - swap.distance in
              let b = swap.distance in
              let at' : q ≡ wrap_pos order (p0 + d') =
                swap.at
                ∙ ap (λ k. wrap_pos order (wrap_difference order k b + swap.step)) at
                ∙ place_nearer order low high p0 d b swap.step below hd swap.closer
                    (ground (arith, swap.near)) in
              let less : d' < d = ground (arith, swap.closer, swap.near) in
              let diff : wrap_difference order q p0 ≡ d' =
                ap (λ k. wrap_difference order k p0) at'
                ∙ difference-place order low high p0 d' below (omega arith) in
              let (status, u, run, out) =
                insert_near-Outcome fuel s d' q (omega arith) (omega arith) at' swap.consistent
                  swap.free (λ x h. absent x (swap.back key x h)) in
              let run' = ap (λ k. insert_near order fuel s key v p0 k q) diff ∙ run in
              (status, u, ground (arith, e, run'), after_swap order t f q s swap key v status u out)
        ]
      ]

  -- Where the linear search ends: within its rounds at a slot without a key
  abbrev EndsAt : Table V → ℕ → ℕ × ℕ → Type 0
  EndsAt t bound r =
      (r.1 ≡ wrap_pos order (p0 + r.0)) × (r.0 ≤ bound) × (r.0 < bound → (t r.1).key ≡ none)

  find_free-EndsAt :
      (rounds : ℕ) (t : Table V) (d : ℕ)
      → d + rounds ≤ 2 ^ order
      → EndsAt t (d + rounds) (find_free order rounds t d (wrap_pos order (p0 + d)))
  unfolding find_free
  find_free-EndsAt zero t d room = (refl, omega arith, λ lt. absurd (omega arith))
  find_free-EndsAt (suc rounds) t d room =
      let pos = wrap_pos order (p0 + d) in
      elim (Option-cases (t pos).key) [
        | inl e ↦ rw e (refl, omega arith, λ lt. e)
        | inr (k, e) ↦
            let one : suc d ≡ d + 1 = omega arith in
            let next : wrap_pos order (pos + 1) ≡ wrap_pos order (p0 + (d + 1)) =
              place-suc order low high p0 d below (omega arith)
              ∙ ap (λ n. wrap_pos order (p0 + n)) one in
            let total : d + 1 + rounds ≡ d + suc rounds = omega arith in
            rw (e, next, ← total) (find_free-EndsAt rounds t (d + 1) (omega arith))
      ]

  -- A slot without a key ends the search.
  find_free-le :
      (rounds : ℕ) (t : Table V) (d e : ℕ)
      → d + rounds ≤ 2 ^ order
      → d ≤ e
      → e < d + rounds
      → (t (wrap_pos order (p0 + e))).key ≡ none
      → (find_free order rounds t d (wrap_pos order (p0 + d))).0 ≤ e
  unfolding find_free
  find_free-le zero t d e room le lt empty = absurd (omega arith)
  find_free-le (suc rounds) t d e room le lt empty =
      let pos = wrap_pos order (p0 + d) in
      elim (Option-cases (t pos).key) [
        | inl n ↦ rw n le
        | inr (k, n) ↦
            let one : suc d ≡ d + 1 = omega arith in
            let next : wrap_pos order (pos + 1) ≡ wrap_pos order (p0 + (d + 1)) =
              place-suc order low high p0 d below (omega arith)
              ∙ ap (λ m. wrap_pos order (p0 + m)) one in
            let ne : e ≢ d = λ ed.
              let here = ap (λ m. (t (wrap_pos order (p0 + m))).key) ed in cc (here, empty, n) in
            rw (n, next)
              (find_free-le rounds t (d + 1) e (omega arith) (omega arith) (omega arith) empty)
      ]

  half : 2 ^ (order - 1) ≤ 2 ^ order
  half = pow-le-pow_right {n = 2} (omega arith) {i = order - 1} {j = order} (omega arith)

  -- The key stands in the table, and its value is written.
  put_found :
      (t : Table V) (q : ℕ)
      → IsConsistent order t
      → find_key order t key ≡ some q
      → Written order t key (some v) (set_entry q (t q).key v t)
  put_found t q good e =
      let (d, hd, marked, at, has) = find_key-found order low high t key q e in
      let has' : (t (wrap_pos order (p0 + d))).key ≡ some key = rw (← at) has in
      rw at (
        edit-Written order low high t _ key (some v) d good
          (overwrite-Edit order low high t good key d hd marked has' v))

  -- A put always returns, and does what its status says.
  pub hashtable_put-Outcome :
      (t : Table V)
      → IsConsistent order t
      → (status : Status) × (s : Table V) × (hashtable_put order t key v ≡ some (status, s))
        × Outcome order t key v status s
  unfolding hashtable_put
  hashtable_put-Outcome t good = elim (Option-cases (find_key order t key)) [
    | inr (q, e) ↦ (success, set_entry q (t q).key v t, ground (arith, e), put_found t q good e)
    | inl e ↦
        let rounds = 2 ^ (order - 1) in
        let start = place-zero order low high p0 below in
        let r = find_free order rounds t 0 p0 in
        let (at, bound, empty) : EndsAt t (0 + rounds) r =
          rw start at (find_free-EndsAt rounds t 0 (omega (arith, half))) in
        let absent : Absent order t key = λ x (d, (hd, marked, has, value)).
          find_key-missing order low high t key good e d marked has in
        elim (Bool-cases (ltb r.0 rounds)) [
          | inr none_free ↦ (
            full,
            t,
            ground (arith, e, none_free),
            (record { consistent = good; there = λ k x h. h; back = λ k x h. h }, absent),
          )
          | inl some_free ↦
              let key_none : (t r.1).key ≡ none = empty (ground arith) in
              let (status, s, run, out) =
                insert_near-Outcome rounds t r.0 r.1 (ground arith) (ground (arith, half)) at good
                  (none-IsFree order t r.1 good key_none) absent in
              (status, s, ground (arith, e, some_free, run), out)
        ]
  ]

insert_near_now :
    (order : ℕ) {V : Type 0} (key : Str) (v : V) (fuel : ℕ) (t : Table V) (d f : ℕ)
    → 0 < fuel
    → d < 32
    → insert_near order fuel t key v (hash_func order key) d f
      ≡ some (success, write_entry order t key v (hash_func order key) d f)
unfolding insert_near
insert_near_now order key v zero t d f pos near = absurd (omega arith)
insert_near_now order key v (suc fuel) t d f pos near = ground arith

-- For tables of 2^5 to 2^30 slots: a put succeeds if, among the slots from the hash position of
-- the key on that are fewer than 32 and fewer than half the size of the table away, one holds no
-- key.
pub hashtable_put_near :
    (order : ℕ) {V : Type 0} (key : Str) (v : V) (t : Table V) (e : ℕ)
    → 5 ≤ order
    → order ≤ 30
    → e < 32
    → e < 2 ^ (order - 1)
    → (t (wrap_pos order (hash_func order key + e))).key ≡ none
    → (s : Table V) × (hashtable_put order t key v ≡ some (success, s))
unfolding hashtable_put
hashtable_put_near order key v t e low high near inside empty =
    elim (Option-cases (find_key order t key)) [
      | inr (q, found) ↦ (set_entry q (t q).key v t, ground (arith, found))
      | inl new ↦
          (let below = hash_func-lt order low high key in
            let rounds = 2 ^ (order - 1) in
            let r = find_free order rounds t 0 (hash_func order key) in
            let first : r.0 ≤ e = rw (place-zero order low high (hash_func order key) below) at (
              find_free-le order low high key v rounds t 0 e
                (omega (arith, half order low high key v)) (omega arith) (omega arith) empty) in
            let now = insert_near_now order key v rounds t r.0 r.1 (omega arith) (omega arith) in
            let free : ltb r.0 rounds ≡ true = ground arith in
            (
              write_entry order t key v (hash_func order key) r.0 r.1,
              ground (arith, new, free, now),
            ))
    ]
