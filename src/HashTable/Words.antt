-- ===== src/HashTable/Words.antt =====
-- The 32-bit words of hashtable.h: the bits of `hop_info`, and the width of hashes.
use cjet.Base.{
  Bool-cases, inl, inr, ℕ, zero, suc, ◌+◌, ◌-◌, ◌*◌, ◌/◌, ◌%◌, ◌^◌, ◌≤◌, ◌<◌, not, ◌&&◌, ◌||◌, ◌==◌,
  bit_and, bit_or, bit_xor, arith, ◌≡◌, sym, ap, ◌∙◌, ltb, List, [], ◌∷◌, if◌then◌else◌,
}
use native.Mathlib.Nat.{pow-suc, mul_assoc, pow-le-pow_right}
use cjet.Base.Bits.{mod_twice, pow-pos, bit_and_step, bit_and-lt, bit_or_step, bit_xor_step}
use cjet.Groups.Bits.{bit, bit-zero, bit_and-found, bit-bit_or, bit-power}
use cjet.Websocket.Mask.Words.{differ_lt}
use cjet.HashTable.{complement, mix_hash, hash_chars}

pub pow-add : (k n : ℕ) → 2 ^ (k + n) ≡ 2 ^ k * 2 ^ n
pow-add k zero = let e : k + 0 ≡ k = omega arith in rw e (omega arith)
pow-add k (suc n) =
    let e : k + suc n ≡ suc (k + n) = omega arith in
    rw e (
      pow-suc 2 (k + n)
      ∙ ap (λ m. m * 2) (pow-add k n)
      ∙ mul_assoc (2 ^ k) (2 ^ n) 2
      ∙ ap (λ m. 2 ^ k * m) (sym (pow-suc 2 n)))

-- A word has no bit in common with 0.
bit_and-zero : (x : ℕ) → bit_and x 0 ≡ 0
bit_and-zero x = elim (Bool-cases (bit_and x 0 == 0)) [
  | inl e ↦ ground arith
  | inr e ↦
      let (j, here, there) = bit_and-found x x 0 (omega arith) (ground arith) in
      absurd (let none_there = bit-zero j in cc (there, none_there))
]

pub bit_and-ones : (n x : ℕ) → bit_and x (2 ^ n - 1) ≡ x % 2 ^ n
bit_and-ones zero x = omega (arith, bit_and-zero x)
bit_and-ones (suc n) x =
    let pos : 0 < 2 ^ n = pow-pos n in
    omega (
      arith,
      pow-suc 2 n,
      bit_and_step x (2 ^ suc n - 1),
      ap (λ m. bit_and (x / 2) m)
          (let h : (2 ^ suc n - 1) / 2 ≡ 2 ^ n - 1 = omega (arith, pow-suc 2 n) in h),
      bit_and-ones n (x / 2),
      mod_twice x (2 ^ n) pos,
      ap (λ m. x % m) (pow-suc 2 n),
    )

pub bit_and-one : (x : ℕ) → bit_and x 1 ≡ x % 2
bit_and-one x = bit_and-ones 1 x

bit_xor-lt : (n a b : ℕ) → a < 2 ^ n → b < 2 ^ n → bit_xor a b < 2 ^ n
bit_xor-lt zero a b ha hb =
    let p : a ≡ 0 = omega arith in let q : b ≡ 0 = omega arith in rw (p, q) (omega arith)
bit_xor-lt (suc n) a b ha hb =
    ground (
      arith,
      bit_xor_step a b,
      pow-suc 2 n,
      bit_xor-lt n (a / 2) (b / 2),
      differ_lt (a % 2) (b % 2),
    )

-- `x & ~(1 << j)` clears the bit `j`.
bit-bit_and : (j a b : ℕ) → bit j (bit_and a b) ≡ bit j a && bit j b
unfolding bit
bit-bit_and zero a b = ground (arith, bit_and_step a b)
bit-bit_and (suc j) a b =
    let half : bit_and a b / 2 ≡ bit_and (a / 2) (b / 2) = omega (arith, bit_and_step a b) in
    rw half (bit-bit_and j (a / 2) (b / 2))

bit_or-lt : (n a b : ℕ) → a < 2 ^ n → b < 2 ^ n → bit_or a b < 2 ^ n
bit_or-lt zero a b ha hb =
    let p : a ≡ 0 = omega arith in let q : b ≡ 0 = omega arith in rw (p, q) (omega arith)
bit_or-lt (suc n) a b ha hb =
    ground (arith, bit_or_step a b, pow-suc 2 n, bit_or-lt n (a / 2) (b / 2))

pub power-lt : (d : ℕ) → d < 32 → 2 ^ d < 2 ^ 32
power-lt d small =
    let le : 2 ^ d ≤ 2 ^ 31 =
      pow-le-pow_right {n = 2} (omega arith) {i = d} {j = 31} (omega arith) in
    omega arith

-- A 32-bit `hop_info` keeps its width.
pub added-lt : (a d : ℕ) → a < 2 ^ 32 → d < 32 → bit_or a (2 ^ d) < 2 ^ 32
added-lt a d ha hd = bit_or-lt 32 a (2 ^ d) ha (power-lt d hd)

pub cleared-lt : (a m : ℕ) → a < 2 ^ 32 → bit_and a m < 2 ^ 32
cleared-lt a m ha = bit_and-lt 32 a m ha

bit-bit_xor : (j a b : ℕ) → bit j (bit_xor a b) ≡ (if bit j a then not (bit j b) else bit j b)
unfolding bit
bit-bit_xor zero a b = ground (arith, bit_xor_step a b)
bit-bit_xor (suc j) a b =
    let half : bit_xor a b / 2 ≡ bit_xor (a / 2) (b / 2) =
      omega (arith, bit_xor_step a b, differ_lt (a % 2) (b % 2) (omega arith) (omega arith)) in
    rw half (bit-bit_xor j (a / 2) (b / 2))

bit-ones : (n j : ℕ) → bit j (2 ^ n - 1) ≡ ltb j n
unfolding bit
bit-ones zero j = bit-zero j ∙ (ground arith)
bit-ones (suc n) zero = ground (arith, pow-suc 2 n, pow-pos n)
bit-ones (suc n) (suc j) =
    let half : (2 ^ suc n - 1) / 2 ≡ 2 ^ n - 1 = omega (arith, pow-suc 2 n) in
    rw half (bit-ones n j ∙ (ground arith))

-- The bit `d` of `hop_info & ~(1 << i)`
pub bit-cleared :
    (d i a : ℕ) → d < 32 → bit d (bit_and a (complement (2 ^ i))) ≡ bit d a && not (d == i)
bit-cleared d i a small = ground (
  arith,
  bit-bit_and d a (complement (2 ^ i)),
  bit-bit_xor d (2 ^ 32 - 1) (2 ^ i),
  bit-ones 32 d,
  bit-power d i,
)

-- The bit `d` of `hop_info | 1 << i`
pub bit_added : (d i a : ℕ) → bit d (bit_or a (2 ^ i)) ≡ bit d a || d == i
bit_added d i a = ground (arith, bit-bit_or d a (2 ^ i), bit-power d i)

pub hash_chars-lt : (key : List ℕ) (hash : ℕ) → hash < 2 ^ 32 → hash_chars hash key < 2 ^ 32
unfolding hash_chars
hash_chars-lt [] hash small = small
hash_chars-lt (c ∷ key) hash small = hash_chars-lt key _ (omega arith)

pub mix_hash-lt : (key : ℕ) → mix_hash key < 2 ^ 32
unfolding mix_hash
mix_hash-lt key =
    let key1 = bit_xor (bit_xor key 61) (key / 2 ^ 16) in
    let key2 = (key1 + key1 * 2 ^ 3) % 2 ^ 32 in
    let key4 = bit_xor key2 (key2 / 2 ^ 4) * 0x27d4eb2d % 2 ^ 32 in
    bit_xor-lt 32 key4 (key4 / 2 ^ 15) (omega arith) (omega arith)
