-- ===== src/HashTable/Closer.antt =====
-- The search of `find_closer_entry` of hashtable.h for an entry to swap.
use cjet.Base.{
  ℕ, zero, suc, ◌+◌, ◌*◌, ◌%◌, ◌^◌, ◌≤◌, ◌<◌, true, false, not, some, ◌==◌, bit_and, arith, ◌≡◌,
  refl, sym, ap, ◌∙◌, Bool-cases, Option-cases, inl, inr,
}
use cjet.Base.Str.{Str}
use native.Mathlib.Nat.{pow-suc, mod-eq_of_lt}
use cjet.Groups.Bits.{bit, bit-power, bit_and-shared, bit_and-found}
use cjet.HashTable.{
  Table, first_hop, wrap_pos, wrap_difference, swap_entry, closer_entry, find_closer_entry,
}
use cjet.HashTable.Words.{power-lt}
use cjet.HashTable.Places.{size_bounds, difference-lt, place-difference}
use cjet.HashTable.Contents.{IsConsistent, Holds}
use cjet.HashTable.Moves.{
  IsFree, swapped-IsConsistent, swapped-IsFree, Holds-swapped, swapped-Holds,
}

only_bit : (i x : ℕ) → bit i x ≡ false → (bit_and (2 ^ i) x == 0) ≡ true
only_bit i x clear = elim (Bool-cases (bit_and (2 ^ i) x == 0)) [
  | inl e ↦ e
  | inr e ↦
      let (j, one, two) = bit_and-found (2 ^ i) (2 ^ i) x (omega arith) (ground arith) in
      let same : j ≡ i = ground (arith, bit-power j i) in
      let here : bit i x ≡ true = rw (← same) two in absurd (cc (here, clear))
]

next_mask : (i : ℕ) → i + 1 < 32 → 2 ^ i * 2 % 2 ^ 32 ≡ 2 ^ (i + 1)
next_mask i small =
    let e : i + 1 ≡ suc i = omega arith in
    rw (e, pow-suc 2 i) (mod-eq_of_lt (omega (arith, power-lt (suc i) (omega arith), pow-suc 2 i)))

-- `mask & hop_info` with a mask of one bit
masked_bit : (i x : ℕ) → (bit_and (2 ^ i) x == 0) ≡ not (bit i x)
masked_bit i x = elim (Bool-cases (bit i x)) [
  | inl set ↦
      let ne = bit_and-shared i (2 ^ i) x (bit-power i i ∙ (ground arith)) set in
      rw set (ground arith)
  | inr clear ↦ rw clear (only_bit i x clear)
]

first_hop-found :
    (rounds i x j m : ℕ)
    → i + rounds ≤ 32
    → first_hop rounds i (2 ^ i) x ≡ some (j, m)
    → (j < i + rounds) × (m ≡ 2 ^ j) × (bit j x ≡ true)
unfolding first_hop
first_hop-found zero i x j m room found = absurd (cc)
first_hop-found (suc zero) i x j m room found = elim (Bool-cases (bit i x)) [
  | inl set ↦
      let ei : i ≡ j = ground (arith, masked_bit i x) in
      let em : 2 ^ i ≡ m = ground (arith, masked_bit i x) in
      (omega arith, sym em ∙ ap (λ k. 2 ^ k) ei, rw (← ei) set)
  | inr clear ↦ absurd (ground (arith, masked_bit i x))
]
first_hop-found (suc (suc rounds)) i x j m room found = elim (Bool-cases (bit i x)) [
  | inl set ↦
      let ei : i ≡ j = ground (arith, masked_bit i x) in
      let em : 2 ^ i ≡ m = ground (arith, masked_bit i x) in
      (omega arith, sym em ∙ ap (λ k. 2 ^ k) ei, rw (← ei) set)
  | inr clear ↦
      let rest : first_hop (suc rounds) (i + 1) (2 ^ i * 2 % 2 ^ 32) x ≡ some (j, m) =
        ground (arith, masked_bit i x) in
      let (below, mask, set) =
        first_hop-found (suc rounds) (i + 1) x j m (omega arith)
          (ap (λ k. first_hop (suc rounds) (i + 1) k x) (sym (next_mask i (omega arith))) ∙ rest) in
      (omega arith, mask, set)
]

module _ (order : ℕ) {V : Type 0} where
  -- What a swap leaves: the slot `q` is free, and nothing changed of what is held.
  pub record Swapped (t : Table V) (f q : ℕ) (s : Table V) : Type 0 where
    pub consistent : IsConsistent order s
    pub free : IsFree order s q
    pub there : (key : Str) (v : V) → Holds order t key v → Holds order s key v
    pub back : (key : Str) (v : V) → Holds order s key v → Holds order t key v
    pub distance : ℕ
    pub step : ℕ
    pub near : distance < 32
    pub closer : step < distance
    pub at : q ≡ wrap_pos order (wrap_difference order f distance + step)

module _ (order : ℕ) (low : 5 ≤ order) (high : order ≤ 30) {V : Type 0} where
  closer_entry-Swapped :
      (d : ℕ) (t : Table V) (f q : ℕ) (s : Table V)
      → d < 32
      → IsConsistent order t
      → f < 2 ^ order
      → IsFree order t f
      → closer_entry order d t f ≡ some (q, s)
      → Swapped order t f q s
  unfolding closer_entry
  closer_entry-Swapped zero t f q s hd good hf free found = absurd (cc)
  closer_entry-Swapped (suc d) t f q s hd good hf free found =
      let c = wrap_difference order f (suc d) in
      elim (Option-cases (first_hop (suc d) 0 1 (t c).hop_info)) [
        | inl e ↦ closer_entry-Swapped d t f q s (omega arith) good hf free (ground (arith, e))
        | inr ((i, m), e) ↦
            let (below, mask, set) = first_hop-found (suc d) 0 (t c).hop_info i m (omega arith) e in
            let wide = size_bounds order low high in
            let hc = difference-lt order low high f (suc d) hf (omega arith) in
            let ef = place-difference order low high f (suc d) hf (omega arith) in
            let free_c : IsFree order t (wrap_pos order (c + suc d)) = rw ef free in
            let q' = wrap_pos order (c + i) in
            let swap : Swapped order t f q'
                (swap_entry order t (wrap_pos order (c + suc d)) c (suc d) q' (2 ^ i)) =
              record {
                consistent =
                    swapped-IsConsistent order low high t good c (suc d) i hc hd (omega arith) set
                      free_c;
                free =
                    swapped-IsFree order low high t good c (suc d) i hc hd (omega arith) set free_c;
                there =
                    Holds-swapped order low high t good c (suc d) i hc hd (omega arith) set free_c;
                back =
                    swapped-Holds order low high t good c (suc d) i hc hd (omega arith) set free_c;
                distance = suc d;
                step = i;
                near = hd;
                closer = omega arith;
                at = refl;
              } in
            let eq : q' ≡ q = ground (arith, e) in
            let es : swap_entry order t f c (suc d) q' m ≡ s = ground (arith, e) in
            let made : swap_entry order t (wrap_pos order (c + suc d)) c (suc d) q' (2 ^ i) ≡ s =
              ap (λ k. swap_entry order t k c (suc d) q' (2 ^ i)) ef
              ∙ ap (λ k. swap_entry order t f c (suc d) q' k) (sym mask)
              ∙ es in
            rw (← eq, ← made) swap
      ]

  pub find_closer_entry-Swapped :
      (t : Table V) (f q : ℕ) (s : Table V)
      → IsConsistent order t
      → f < 2 ^ order
      → IsFree order t f
      → find_closer_entry order t f ≡ some (q, s)
      → Swapped order t f q s
  unfolding find_closer_entry
  find_closer_entry-Swapped t f q s good hf free found =
      closer_entry-Swapped 31 t f q s (omega arith) good hf free found
