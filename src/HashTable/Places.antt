-- ===== src/HashTable/Places.antt =====
-- Positions in the table of hashtable.h, which go round at its size.
use cjet.Base.{
  ℕ, zero, suc, ◌+◌, ◌-◌, ◌*◌, ◌%◌, ◌^◌, ◌≤◌, ◌<◌, arith, ◌≡◌, ap, ◌∙◌, Bool-cases, inl, inr, ltb,
  leb, List, if◌then◌else◌,
}
use native.Mathlib.Nat.{
  suc-mul, mul-add-mod_self_right, mod-eq_of_lt, mod-eq-sub-mod, mul_comm, pow-le-pow_right,
  div-lt_iff_lt-mul,
}
use cjet.HashTable.{wrap_pos, wrap_difference, hash_func, hash_chars}
use cjet.Base.Bits.{pow-pos}
use cjet.HashTable.Words.{pow-add, bit_and-ones, mix_hash-lt}

mul_pred : (m n : ℕ) → 0 < m → m * n ≡ (m - 1) * n + n
mul_pred zero n pos = absurd (omega arith)
mul_pred (suc m) n pos = suc-mul m n ∙ ap (λ k. k * n + n) (omega arith)

-- The sizes that the configuration allows for
module _ (order : ℕ) (low : 5 ≤ order) (high : order ≤ 30) where
  pub size_bounds : (32 ≤ 2 ^ order) × (2 ^ order ≤ 2 ^ 30)
  size_bounds =
      (pow-le-pow_right {n = 2} (omega arith) low, pow-le-pow_right {n = 2} (omega arith) high)

  size_split : 2 ^ 32 ≡ 2 ^ (32 - order) * 2 ^ order
  size_split =
      let e : 32 ≡ 32 - order + order = omega arith in
      ap (λ n. 2 ^ n) e ∙ pow-add (32 - order) order

  pub hash_func-lt : (key : List ℕ) → hash_func order key < 2 ^ order
  unfolding hash_func
  hash_func-lt key = (div-lt_iff_lt-mul (pow-pos (32 - order))).1 (
      omega (
        arith,
        mix_hash-lt (hash_chars 0 key),
        size_split,
        mul_comm (2 ^ (32 - order)) (2 ^ order),
      ))

  wrap_small : (x : ℕ) → x < 2 ^ order → wrap_pos order x ≡ x
  unfolding wrap_pos
  wrap_small x small = bit_and-ones order x ∙ mod-eq_of_lt small

  wrap_large :
      (x : ℕ) → 2 ^ order ≤ x → x < 2 ^ order + 2 ^ order → wrap_pos order x ≡ x - 2 ^ order
  unfolding wrap_pos
  wrap_large x large below =
      bit_and-ones order x ∙ mod-eq-sub-mod large ∙ mod-eq_of_lt (omega arith)

  pub place_cases :
      (x : ℕ)
      → x < 2 ^ order + 2 ^ order
      → wrap_pos order x ≡ (if ltb x (2 ^ order) then x else x - 2 ^ order)
  place_cases x below = ground (arith, wrap_small x, wrap_large x)

  pub difference_cases :
      (a b : ℕ)
      → a < 2 ^ order
      → b ≤ 2 ^ order
      → wrap_difference order a b ≡ (if leb b a then a - b else a + 2 ^ order - b)
  unfolding wrap_difference wrap_pos
  difference_cases a b ha hb = elim (Bool-cases (leb b a)) [
    | inl le ↦
        let e : (a + (2 ^ 32 - b)) % 2 ^ 32 ≡ a - b = ground (arith, size_bounds) in
        rw (e, le) (bit_and-ones order (a - b) ∙ mod-eq_of_lt (omega arith))
    | inr gt ↦
        let m = 2 ^ (32 - order) in
        let n = 2 ^ order in
        let split : m * n ≡ (m - 1) * n + n = mul_pred m n (pow-pos (32 - order)) in
        let e : (a + (2 ^ 32 - b)) % 2 ^ 32 ≡ (m - 1) * n + (a + n - b) =
          ground (arith, size_split, split, size_bounds) in
        rw (e, gt)
          (bit_and-ones order ((m - 1) * n + (a + n - b))
            ∙ mul-add-mod_self_right (m - 1) n (a + n - b)
            ∙ mod-eq_of_lt (ground arith))
  ]

  -- A place `d` further on
  pub place-lt : (p d : ℕ) → p < 2 ^ order → d < 2 ^ order → wrap_pos order (p + d) < 2 ^ order
  place-lt p d hp hd = ground (arith, place_cases (p + d))

  pub place_inj :
      (p d e : ℕ)
      → p < 2 ^ order
      → d < 2 ^ order
      → e < 2 ^ order
      → wrap_pos order (p + d) ≡ wrap_pos order (p + e)
      → d ≡ e
  place_inj p d e hp hd he same = ground (arith, place_cases (p + d), place_cases (p + e))

  pub place-suc :
      (p d : ℕ)
      → p < 2 ^ order
      → suc d ≤ 2 ^ order
      → wrap_pos order (wrap_pos order (p + d) + 1) ≡ wrap_pos order (p + suc d)
  place-suc p d hp hd = ground (
    arith,
    place_cases (p + d),
    place_cases (p + suc d),
    place_cases (wrap_pos order (p + d) + 1),
  )

  pub place-zero : (p : ℕ) → p < 2 ^ order → wrap_pos order (p + 0) ≡ p
  place-zero p hp = ground (arith, place_cases (p + 0))

  pub difference-place :
      (p d : ℕ)
      → p < 2 ^ order
      → d < 2 ^ order
      → wrap_difference order (wrap_pos order (p + d)) p ≡ d
  difference-place p d hp hd =
      ground (arith, place_cases (p + d), difference_cases (wrap_pos order (p + d)) p)

  -- `b` places back and then on again
  pub difference-lt :
      (f b : ℕ) → f < 2 ^ order → b < 2 ^ order → wrap_difference order f b < 2 ^ order
  difference-lt f b hf hb = ground (arith, difference_cases f b)

  pub place-difference :
      (f b : ℕ) → f < 2 ^ order → b < 2 ^ order → wrap_pos order (wrap_difference order f b + b) ≡ f
  place-difference f b hf hb =
      ground (arith, difference_cases f b, place_cases (wrap_difference order f b + b))

  -- A place before a later one, seen from further back
  pub place_nearer :
      (p d b i : ℕ)
      → p < 2 ^ order
      → d < 2 ^ order
      → i < b
      → b ≤ d
      → wrap_pos order (wrap_difference order (wrap_pos order (p + d)) b + i)
        ≡ wrap_pos order (p + (d + i - b))
  place_nearer p d b i hp hd hi hb = ground (
    arith,
    place_cases (p + d),
    difference_cases (wrap_pos order (p + d)) b,
    place_cases (wrap_difference order (wrap_pos order (p + d)) b + i),
    place_cases (p + (d + i - b)),
  )
