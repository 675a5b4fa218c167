-- ===== src/Groups/Bits.antt =====
-- Bits of a set of groups, as groups.c sets them by `|` and tests them by `&`.
use cjet.Base.{
  ℕ, zero, suc, ◌/◌, ◌%◌, ◌^◌, ◌≤◌, Bool, true, false, ◌&&◌, ◌||◌, ◌==◌, ==_iff, bit_and, bit_or,
  arith, ◌≡◌, ◌≢◌, refl, Bool-cases, inl, inr,
}
use native.Mathlib.Nat.{pow-suc}
use cjet.Base.Bits.{zero-bit_and, bit_and_step, bit_or_step}

-- The bit of `x` at `j`
unfoldable pub bit : ℕ → ℕ → Bool
bit zero x = x % 2 == 1
bit (suc j) x = bit j (x / 2)

pub bit-zero : (j : ℕ) → bit j 0 ≡ false
unfolding bit
bit-zero zero = refl
bit-zero (suc j) = bit-zero j

pub bit-bit_or : (j a b : ℕ) → bit j (bit_or a b) ≡ bit j a || bit j b
unfolding bit
bit-bit_or zero a b = ground (arith, bit_or_step a b)
bit-bit_or (suc j) a b =
    let half : bit_or a b / 2 ≡ bit_or (a / 2) (b / 2) = omega (arith, bit_or_step a b) in
    rw half (bit-bit_or j (a / 2) (b / 2))

pub bit-power : (k j : ℕ) → bit k (2 ^ j) ≡ k == j
unfolding bit
bit-power zero zero = refl
bit-power (suc k) zero = ground (arith, bit-zero k)
bit-power zero (suc j) = ground (arith, pow-suc 2 j)
bit-power (suc k) (suc j) =
    let half : 2 ^ suc j / 2 ≡ 2 ^ j = omega (arith, pow-suc 2 j) in
    rw half (ground (arith, bit-power k j))

-- `&` is not 0 exactly if there is a bit in both.
pub bit_and-shared : (j a b : ℕ) → bit j a ≡ true → bit j b ≡ true → bit_and a b ≢ 0
unfolding bit
bit_and-shared zero a b ha hb = ground (arith, bit_and_step a b)
bit_and-shared (suc j) a b ha hb =
    ground (arith, bit_and_step a b, bit_and-shared j (a / 2) (b / 2) ha hb)

pub bit_and-found :
    (n a b : ℕ) → a ≤ n → bit_and a b ≢ 0 → (j : ℕ) × (bit j a ≡ true) × (bit j b ≡ true)
unfolding bit
bit_and-found zero a b le ne = absurd (ground (arith, zero-bit_and b))
bit_and-found (suc n) a b le ne = elim (Bool-cases (a % 2 == 1 && b % 2 == 1)) [
  | inl both ↦ (0, ground arith, ground arith)
  | inr not_both ↦
      (let (j, ha, hb) =
          bit_and-found n (a / 2) (b / 2) (omega arith)
            (ground (arith, bit_and_step a b, ==_iff (a % 2) 1, ==_iff (b % 2) 1)) in
        (suc j, ha, hb))
]
