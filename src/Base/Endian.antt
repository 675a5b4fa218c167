-- ===== src/Base/Endian.antt =====
-- Numbers as bytes in network order, as jet_endian.h converts them.
use Prim.Native.Nat.{ℕ, zero, suc, ◌+◌, ◌*◌, ◌/◌, ◌%◌, ◌<◌}
use mathlib.Core.Path.{◌≡◌, refl, ap, ◌∙◌}
use mathlib.Core.List.{List, [], ◌∷◌, ◌++◌}
use native.Mathlib.Omega.{arith}
use cjet.Base.Lists.{length, length-append}

-- `jet_be16toh` and `jet_be64toh` of the bytes in memory
unfoldable pub big_endian : ℕ → List ℕ → ℕ
big_endian n [] = n
big_endian n (b ∷ bytes) = big_endian (n * 256 + b) bytes

-- The last `n` bytes of a number, the highest first (`jet_htobe16`, `jet_htobe64`)
unfoldable pub big_endian_bytes : ℕ → ℕ → List ℕ
big_endian_bytes zero w = []
big_endian_bytes (suc n) w = big_endian_bytes n (w / 256) ++ (w % 256 ∷ [])

big_endian-append :
    (n : ℕ) (xs ys : List ℕ) → big_endian n (xs ++ ys) ≡ big_endian (big_endian n xs) ys
unfolding big_endian
big_endian-append n [] ys = refl
big_endian-append n (x ∷ xs) ys = big_endian-append (n * 256 + x) xs ys

-- How many numbers `n` bytes can hold
abbrev pub byte_bound : ℕ → ℕ
byte_bound zero = 1
byte_bound (suc n) = byte_bound n * 256

pub big_endian_bytes_back : (n w : ℕ) → w < byte_bound n → big_endian 0 (big_endian_bytes n w) ≡ w
unfolding big_endian big_endian_bytes
big_endian_bytes_back zero w small = omega arith
big_endian_bytes_back (suc n) w small =
    big_endian-append 0 (big_endian_bytes n (w / 256)) (w % 256 ∷ [])
    ∙ ap (λ k. k * 256 + w % 256) (big_endian_bytes_back n (w / 256) (omega arith))
    ∙ omega arith

pub length-big_endian_bytes : (n w : ℕ) → length (big_endian_bytes n w) ≡ n
unfolding big_endian_bytes
length-big_endian_bytes zero w = refl
length-big_endian_bytes (suc n) w = omega (
  arith,
  length-append (big_endian_bytes n (w / 256)) (w % 256 ∷ []),
  length-big_endian_bytes n (w / 256),
)
