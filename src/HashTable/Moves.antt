-- ===== src/HashTable/Moves.antt =====
-- `find_closer_entry` of hashtable.h changes where an entry stands, and nothing of what is held.
use cjet.Base.{
  ℕ, ◌+◌, ◌^◌, ◌≤◌, ◌<◌, true, false, not, ◌&&◌, ◌||◌, none, some, ◌==◌, ==_refl, ==_ne, bit_and,
  bit_or, arith, ◌≡◌, ◌≢◌, refl, sym, ap, ◌∙◌, Bool-cases, inl, inr, if◌then◌else◌,
}
use cjet.Base.Str.{Str}
use cjet.Groups.Bits.{bit}
use cjet.HashTable.{Table, complement, wrap_pos, hash_func, set_entry, set_hop, swap_entry}
use cjet.HashTable.Words.{bit-cleared, bit_added, added-lt, cleared-lt}
use cjet.HashTable.Places.{size_bounds, hash_func-lt, place_inj}
use cjet.HashTable.Contents.{Marked, IsConsistent, Holds}

-- No bit leads to the slot.
abbrev pub IsFree : (order : ℕ) {V : Type 0} → Table V → ℕ → Type 0
IsFree order t q =
    (p d : ℕ) → p < 2 ^ order → d < 32 → Marked order t p d → wrap_pos order (p + d) ≢ q

-- A slot with no key is free.
pub none-IsFree :
    (order : ℕ) {V : Type 0} (t : Table V) (q : ℕ)
    → IsConsistent order t
    → (t q).key ≡ none
    → IsFree order t q
none-IsFree order t q good empty p d hp hd marked at =
    let (k, has, home) = good.marked p d hp hd marked in
    let here : (t q).key ≡ some k = rw (← at) has in cc (empty, here)

-- One swap: `c` is the position that is checked, `b` its distance to the free position `f`, `i` the
-- first bit at `c`.
module _ (order : ℕ) (low : 5 ≤ order) (high : order ≤ 30) {V : Type 0} (t : Table V)
    (good : IsConsistent order t) (c b i : ℕ) (hc : c < 2 ^ order) (hb : b < 32) (hi : i < b)
    (at_i : Marked order t c i) (free : IsFree order t (wrap_pos order (c + b))) where
  wide : 32 ≤ 2 ^ order
  wide = (size_bounds order low high).0

  abbrev pub f : ℕ
  f = wrap_pos order (c + b)

  abbrev pub h : ℕ
  h = wrap_pos order (c + i)

  abbrev pub swapped : Table V
  swapped = swap_entry order t f c b h (2 ^ i)

  entry_at_f : ((swapped f).key ≡ (t h).key) × ((swapped f).value ≡ (t h).value)
  unfolding swap_entry set_entry set_hop
  entry_at_f = ground (arith, ==_refl f)

  entry_elsewhere :
      (q : ℕ) → q ≢ f → ((swapped q).key ≡ (t q).key) × ((swapped q).value ≡ (t q).value)
  unfolding swap_entry set_entry set_hop
  entry_elsewhere q ne = ground (arith, ==_ne q f ne)

  hops_elsewhere : (p : ℕ) → p ≢ c → (swapped p).hop_info ≡ (t p).hop_info
  unfolding swap_entry set_entry set_hop
  hops_elsewhere p ne = ground (arith, ==_ne p c ne)

  hops_at_c : (swapped c).hop_info ≡ bit_or (bit_and (t c).hop_info (complement (2 ^ i))) (2 ^ b)
  unfolding swap_entry set_entry set_hop
  hops_at_c = ground (arith, ==_refl c)

  bits_at_c :
      (d : ℕ)
      → d < 32
      → bit d (swapped c).hop_info ≡ (bit d (t c).hop_info && not (d == i)) || d == b
  bits_at_c d hd =
      let x = bit_and (t c).hop_info (complement (2 ^ i)) in
      ap (bit d) hops_at_c
      ∙ bit_added d b x
      ∙ ap (λ m. m || d == b) (bit-cleared d i (t c).hop_info hd)

  -- The distance at which an entry of the new table stood in the old one
  abbrev origin : ℕ → ℕ → ℕ
  origin p d = if p == c && d == b then i else d

  -- What an entry of the new table comes from
  abbrev From : ℕ → ℕ → ℕ → Type 0
  From p d e =
      (e < 32)
      × Marked order t p e
      × ((swapped (wrap_pos order (p + d))).key ≡ (t (wrap_pos order (p + e))).key)
      × ((swapped (wrap_pos order (p + d))).value ≡ (t (wrap_pos order (p + e))).value)

  same_place : (p d : ℕ) → p < 2 ^ order → d < 32 → Marked order t p d → From p d d
  same_place p d hp hd marked =
      let (key, value) = entry_elsewhere (wrap_pos order (p + d)) (free p d hp hd marked) in
      (hd, marked, key, value)

  From-origin :
      (p d : ℕ) → p < 2 ^ order → d < 32 → Marked order swapped p d → From p d (origin p d)
  From-origin p d hp hd marked = elim (Bool-cases (p == c)) [
    | inr other ↦
        let ne : p ≢ c = ground arith in
        let old : Marked order t p d = sym (ap (bit d) (hops_elsewhere p ne)) ∙ marked in
        rw other (same_place p d hp hd old)
    | inl same ↦ elim (Bool-cases (d == b)) [
      | inl new ↦
          let ec : p ≡ c = ground arith in
          let eb : d ≡ b = ground arith in
          let moved : From c b i = (omega arith, at_i, entry_at_f.0, entry_at_f.1) in
          rw (same, new) (rw (ec, eb) moved)
      | inr older ↦
          let ec : p ≡ c = ground arith in
          let bits = ap (λ q. bit d (swapped q).hop_info) ec in
          let old : bit d (t c).hop_info ≡ true = ground (arith, bits, bits_at_c d hd) in
          rw (same, older) (same_place p d hp hd (ap (λ q. bit d (t q).hop_info) ec ∙ old))
    ]
  ]

  at_origin :
      (p d : ℕ)
      → p < 2 ^ order
      → d < 32
      → Marked order t p d
      → (e : ℕ) × (e < 32) × Marked order swapped p e × (origin p e ≡ d)
  at_origin p d hp hd marked = elim (Bool-cases (p == c)) [
    | inr other ↦
        let ne : p ≢ c = ground arith in
        (d, hd, ap (bit d) (hops_elsewhere p ne) ∙ marked, rw other refl)
    | inl same ↦ elim (Bool-cases (d == i)) [
      | inl moved ↦
          let ec : p ≡ c = ground arith in
          let ei : d ≡ i = ground arith in
          let bits = ap (λ q. bit b (swapped q).hop_info) ec in
          (b, hb, bits ∙ bits_at_c b hb ∙ (ground arith), rw (same, ==_refl b) (sym ei))
      | inr stayed ↦
          let ec : p ≡ c = ground arith in
          let bits = ap (λ q. bit d (swapped q).hop_info) ec in
          let old : bit d (t c).hop_info ≡ true =
            ground (arith, ap (λ q. bit d (t q).hop_info) ec) in
          let ne : d ≢ b = λ eb. free c d hc hd old (ap (λ k. wrap_pos order (c + k)) eb) in
          (d, hd, bits ∙ (ground (arith, bits_at_c d hd)), rw (==_ne d b ne) (ground arith))
    ]
  ]

  -- The bit of the old place is gone.
  not_marked_i : bit i (swapped c).hop_info ≡ false
  not_marked_i =
      let ne : (i == b) ≡ false = ==_ne i b (λ e. omega arith) in
      ground (arith, bits_at_c i (omega arith), ==_refl i)

  not-Marked : (p d : ℕ) → p ≡ c → d ≡ i → Marked order swapped p d → ⊥
  not-Marked p d ec ei marked =
      let bits = ap (λ q. bit d (swapped q).hop_info) ec in
      let here = ap (λ e. bit e (swapped c).hop_info) ei in ground (arith, bits, here, not_marked_i)

  origin_inj :
      (p d e : ℕ)
      → Marked order swapped p d
      → Marked order swapped p e
      → origin p d ≡ origin p e
      → d ≡ e
  origin_inj p d e md me same = elim (Bool-cases (p == c)) [
    | inr other ↦ ground arith
    | inl at_c ↦
        let ec : p ≡ c = ground arith in
        elim (Bool-cases (d == b)) [
          | inl db ↦ elim (Bool-cases (e == b)) [
            | inl eb ↦ ground arith
            | inr eb ↦ absurd (not-Marked p e ec (ground arith) me)
          ]
          | inr db ↦ elim (Bool-cases (e == b)) [
            | inl eb ↦ absurd (not-Marked p d ec (ground arith) md)
            | inr eb ↦ ground arith
          ]
        ]
  ]

  swapped-small : (p : ℕ) → p < 2 ^ order → (swapped p).hop_info < 2 ^ 32
  swapped-small p hp = elim (Bool-cases (p == c)) [
    | inl same ↦
        let ec : p ≡ c = ground arith in
        let fits =
          added-lt (bit_and (t c).hop_info (complement (2 ^ i))) b
            (cleared-lt (t c).hop_info (complement (2 ^ i)) (good.small c hc)) hb in
        rw (ec, hops_at_c) fits
    | inr other ↦ rw (hops_elsewhere p (ground arith)) (good.small p hp)
  ]

  -- The swap keeps the invariant,
  pub swapped-IsConsistent : IsConsistent order swapped
  swapped-IsConsistent = record {
    small = swapped-small;
    marked = λ p d hp hd marked.
        let (he, old, key, value) = From-origin p d hp hd marked in
        let (k, has, home) = good.marked p (origin p d) hp he old in (k, key ∙ has, home);
    unique = λ p d e hp hd he md me same.
        let (hd', md', kd, vd) = From-origin p d hp hd md in
        let (he', me', ke, ve) = From-origin p e hp he me in
        origin_inj p d e md me
          (good.unique p (origin p d) (origin p e) hp hd' he' md' me' (sym kd ∙ same ∙ ke));
  }

  -- leaves the slot free from which the entry came,
  pub swapped-IsFree : IsFree order swapped h
  swapped-IsFree p d hp hd marked at = elim (Bool-cases (p == c)) [
    | inl same ↦
        let ec : p ≡ c = ground arith in
        let here : wrap_pos order (c + d) ≡ h = ap (λ q. wrap_pos order (q + d)) (sym ec) ∙ at in
        let ei : d ≡ i =
          place_inj order low high c d i hc (omega (arith, wide)) (omega (arith, wide)) here in
        not-Marked p d ec ei marked
    | inr other ↦
        let ne : p ≢ c = ground arith in
        let old : Marked order t p d = sym (ap (bit d) (hops_elsewhere p ne)) ∙ marked in
        let (k, has, home) = good.marked p d hp hd old in
        let (k', has', home') = good.marked c i hc (omega arith) at_i in
        let key_h : (t h).key ≡ some k = rw (← at) has in
        let keys : k ≡ k' = cc (key_h, has') in ne (sym home ∙ ap (hash_func order) keys ∙ home')
  ]

  -- and changes nothing of what is held.
  pub Holds-swapped : (key : Str) (v : V) → Holds order t key v → Holds order swapped key v
  Holds-swapped key v (d, (hd, marked, has, value)) =
      let p = hash_func order key in
      let hp = hash_func-lt order low high key in
      let (e, he, marked', o) = at_origin p d hp hd marked in
      let (ho, mo, ke, ve) = From-origin p e hp he marked' in
      let place = ap (λ n. wrap_pos order (p + n)) o in
      (
        e,
        (
          he,
          marked',
          ke ∙ ap (λ q. (t q).key) place ∙ has,
          ve ∙ ap (λ q. (t q).value) place ∙ value,
        ),
      )

  pub swapped-Holds : (key : Str) (v : V) → Holds order swapped key v → Holds order t key v
  swapped-Holds key v (d, (hd, marked, has, value)) =
      let p = hash_func order key in
      let (ho, mo, kd, vd) = From-origin p d (hash_func-lt order low high key) hd marked in
      (origin p d, (ho, mo, sym kd ∙ has, sym vd ∙ value))
