-- ===== src/Base/Bits.antt =====
-- The native bit operations at variables: each by its lowest binary digit and the rest.
use Prim.Native.Nat.{ℕ, zero, suc, ◌+◌, ◌-◌, ◌*◌, ◌/◌, ◌%◌, ◌^◌, ◌≤◌, ◌<◌, min, max}
use Prim.Native.Nat.{digits, differ, bit_and, bit_or, bit_xor}
use Prim.Native.Nat.{bit_and-bitwise, bit_or-bitwise, bit_xor-bitwise}
use mathlib.Core.Path.{◌≡◌, refl, sym, ap, ap₂, ◌∙◌}
use mathlib.Core.Bool.{Bool, true, ◌&&◌}
use native.Mathlib.Omega.{arith}
use native.Mathlib.Nat.{
  pow-suc, mul-add-mod_self_left, mod-eq_of_lt, mod-lt, div-add-mod, div-div-eq-div-mul,
}

-- The recursion on digits that the native operations stand for: once the fuel reaches the number, more
-- of it changes nothing.
module _ (rest : ℕ → ℕ) (op : ℕ → ℕ → ℕ) where
  one_spare : (fuel x y : ℕ) → x ≤ fuel → digits rest op (suc fuel) x y ≡ digits rest op fuel x y
  one_spare zero zero y enough = refl
  one_spare zero (suc x) y enough = absurd (omega arith)
  one_spare (suc fuel) zero y enough = refl
  one_spare (suc fuel) (suc x) y enough =
      omega (arith, one_spare fuel (suc x / 2) (y / 2) (omega arith))

  spare :
      (more fuel total x y : ℕ)
      → total ≡ more + fuel
      → x ≤ fuel
      → digits rest op total x y ≡ digits rest op fuel x y
  spare zero fuel total x y sum enough =
      ap (λ n. digits rest op n x y) (let q : total ≡ fuel = omega arith in q)
  spare (suc more) fuel total x y sum enough =
      ap (λ n. digits rest op n x y) (let q : total ≡ suc (more + fuel) = omega arith in q)
      ∙ one_spare (more + fuel) x y (omega arith)
      ∙ spare more fuel (more + fuel) x y refl enough

  -- The fuel of a number, for half of it
  halved : (x y : ℕ) → digits rest op x (suc x / 2) y ≡ digits rest op (suc x / 2) (suc x / 2) y
  halved x y = spare (x - suc x / 2) (suc x / 2) x (suc x / 2) y (omega arith) (omega arith)

pub zero-bit_and : (y : ℕ) → bit_and 0 y ≡ 0
zero-bit_and y = bit_and-bitwise 0 y

pub bit_and_step : (x y : ℕ) → bit_and x y ≡ min (x % 2) (y % 2) + bit_and (x / 2) (y / 2) * 2
bit_and_step zero y = omega (arith, zero-bit_and (y / 2), zero-bit_and y)
bit_and_step (suc x) y = omega (
  arith,
  halved (λ _. zero) min x (y / 2),
  bit_and-bitwise (suc x / 2) (y / 2),
  bit_and-bitwise (suc x) y,
)

zero-bit_or : (y : ℕ) → bit_or 0 y ≡ y
zero-bit_or y = bit_or-bitwise 0 y

pub bit_or_step : (x y : ℕ) → bit_or x y ≡ max (x % 2) (y % 2) + bit_or (x / 2) (y / 2) * 2
bit_or_step zero y = omega (arith, zero-bit_or (y / 2), zero-bit_or y)
bit_or_step (suc x) y = omega (
  arith,
  halved (λ y. y) max x (y / 2),
  bit_or-bitwise (suc x / 2) (y / 2),
  bit_or-bitwise (suc x) y,
)

-- A test at every number under a bound, so that a table can be checked by running it
unfoldable pub passes_up_to : (ℕ → Bool) → ℕ → Bool
passes_up_to test zero = true
passes_up_to test (suc bound) = passes_up_to test bound && test bound

pub passes_up_to_lem :
    (test : ℕ → Bool) (bound : ℕ) {k : ℕ}
    → k < bound
    → passes_up_to test bound ≡ true
    → test k ≡ true
unfolding passes_up_to
passes_up_to_lem test zero small passed = absurd (omega arith)
passes_up_to_lem test (suc bound) {k} small passed =
    ground (arith, passes_up_to_lem test bound {k = k})

zero-bit_xor : (y : ℕ) → bit_xor 0 y ≡ y
zero-bit_xor y = bit_xor-bitwise 0 y

pub bit_xor_step : (x y : ℕ) → bit_xor x y ≡ differ (x % 2) (y % 2) + bit_xor (x / 2) (y / 2) * 2
bit_xor_step zero y = ground (arith, zero-bit_xor (y / 2), zero-bit_xor y)
bit_xor_step (suc x) y = omega (
  arith,
  halved (λ y. y) differ x (y / 2),
  bit_xor-bitwise (suc x / 2) (y / 2),
  bit_xor-bitwise (suc x) y,
)

pub pow-pos : (n : ℕ) → 0 < 2 ^ n
pow-pos zero = omega arith
pow-pos (suc n) = omega (arith, pow-suc 2 n, pow-pos n)

-- A remainder by a double, from the lowest digit and the rest
pub mod_twice : (x p : ℕ) → 0 < p → x % 2 + x / 2 % p * 2 ≡ x % (p * 2)
mod_twice x p pos =
    let q = x / 2 / p in
    let r = x % 2 + x / 2 % p * 2 in
    let e : p * 2 * q ≡ p * q * 2 = grind arith in
    let split : x ≡ p * 2 * q + r = omega (arith, div-add-mod (x / 2) p) in
    sym (
      ap (λ y. y % (p * 2)) split
      ∙ mul-add-mod_self_left (p * 2) q r
      ∙ mod-eq_of_lt (omega (arith, mod-lt (x / 2) pos)))

double_product : (a b x : ℕ) → a ≡ b * 2 → a * x ≡ b * x * 2
double_product a b x p = let q : b * 2 * x ≡ b * x * 2 = grind arith in ap (λ n. n * x) p ∙ q

-- `&` on the lowest `k` bits and on the others
pub bit_and_split :
    (k w m : ℕ)
    → bit_and w m ≡ bit_and (w % 2 ^ k) (m % 2 ^ k) + 2 ^ k * bit_and (w / 2 ^ k) (m / 2 ^ k)
bit_and_split zero w m =
    let p : w % 1 ≡ 0 = omega arith in
    let p' : m % 1 ≡ 0 = omega arith in
    let q : w / 1 ≡ w = omega arith in
    let q' : m / 1 ≡ m = omega arith in
    omega (arith, ap₂ bit_and p p', ap₂ bit_and q q', zero-bit_and 0)
bit_and_split (suc k) w m =
    let p : 2 ^ suc k ≡ 2 ^ k * 2 = omega (arith, pow-suc 2 k) in
    let rests : bit_and (w / 2 ^ suc k) (m / 2 ^ suc k) ≡ bit_and (w / 2 / 2 ^ k) (m / 2 / 2 ^ k) =
      ap₂ bit_and (halves w) (halves m) in
    let lows : bit_and (w % 2 ^ suc k / 2) (m % 2 ^ suc k / 2)
        ≡ bit_and (w / 2 % 2 ^ k) (m / 2 % 2 ^ k) =
      ap₂ bit_and (low_halves w) (low_halves m) in
    let product : 2 ^ suc k * bit_and (w / 2 ^ suc k) (m / 2 ^ suc k)
        ≡ 2 ^ k * bit_and (w / 2 / 2 ^ k) (m / 2 / 2 ^ k) * 2 =
      double_product (2 ^ suc k) (2 ^ k) (bit_and (w / 2 ^ suc k) (m / 2 ^ suc k)) p
      ∙ ap (λ n. 2 ^ k * n * 2) rests in
    omega (
      arith,
      bit_and_step w m,
      bit_and_split k (w / 2) (m / 2),
      bit_and_step (w % 2 ^ suc k) (m % 2 ^ suc k),
      lows,
      product,
      low_digits w,
      low_digits m,
    )
  where
    low_digits : (x : ℕ) → x % 2 ^ suc k ≡ x % 2 + x / 2 % 2 ^ k * 2
    low_digits x =
        let p : 2 ^ suc k ≡ 2 ^ k * 2 = omega (arith, pow-suc 2 k) in
        ap (λ n. x % n) p ∙ sym (mod_twice x (2 ^ k) (pow-pos k))

    low_halves : (x : ℕ) → x % 2 ^ suc k / 2 ≡ x / 2 % 2 ^ k
    low_halves x = omega (arith, low_digits x)

    halves : (x : ℕ) → x / 2 ^ suc k ≡ x / 2 / 2 ^ k
    halves x =
        let p : 2 ^ suc k ≡ 2 * 2 ^ k = omega (arith, pow-suc 2 k) in
        ap (λ n. x / n) p ∙ sym (div-div-eq-div-mul x 2 (2 ^ k))

-- `&` is no wider than its first argument.
pub bit_and-lt : (n a b : ℕ) → a < 2 ^ n → bit_and a b < 2 ^ n
bit_and-lt zero a b ha = let p : a ≡ 0 = omega arith in rw p (omega (arith, zero-bit_and b))
bit_and-lt (suc n) a b ha =
    ground (arith, bit_and_step a b, pow-suc 2 n, bit_and-lt n (a / 2) (b / 2))
