-- ===== src/Base64/Indices.antt =====
-- The indices that `b64_encode_buffer` of base64.c makes with masks and shifts, as sums.
use cjet.Base.{
  ℕ, ◌+◌, ◌*◌, ◌/◌, ◌%◌, ◌^◌, ◌<◌, Bool, true, ◌&&◌, ◌==◌, bit_and, bit_or, ◌≡◌, refl, ap₂, ◌∙◌,
  arith,
}
use cjet.Base.Bits.{passes_up_to, passes_up_to_lem}
use cjet.Utf8.Correct.{IsByte}

-- The masks of the encoder, on every byte
mask_test : ℕ → Bool
mask_test b =
    (bit_and b 0x03 == b % 4)
    && (bit_and b 0xf0 / 16 == b / 16)
    && (bit_and b 0x0f == b % 16)
    && (bit_and b 0xc0 / 64 == b / 64)
    && (bit_and b 0x3f == b % 64)

masks : passes_up_to mask_test 256 ≡ true
unfolding passes_up_to mask_test
masks = refl

pub masked :
    (b : ℕ)
    → IsByte b
    → (bit_and b 0x03 ≡ b % 4)
      × (bit_and b 0xf0 / 16 ≡ b / 16)
      × (bit_and b 0x0f ≡ b % 16)
      × (bit_and b 0xc0 / 64 ≡ b / 64)
      × (bit_and b 0x3f ≡ b % 64)
unfolding mask_test
masked b small = ground (arith, passes_up_to_lem mask_test 256 {k = b} small masks)

-- A join of bits that do not overlap is a sum.
join_test : ℕ → Bool
join_test k = (bit_or (k / 16 * 16) (k % 16) == k) && (bit_or (k / 4 * 4) (k % 4) == k)

joins : passes_up_to join_test 64 ≡ true
unfolding passes_up_to join_test
joins = refl

joined : (k : ℕ) → k < 64 → (bit_or (k / 16 * 16) (k % 16) ≡ k) × (bit_or (k / 4 * 4) (k % 4) ≡ k)
unfolding join_test
joined k small = ground (arith, passes_up_to_lem join_test 64 {k = k} small joins)

pub second_index :
    (a b : ℕ)
    → IsByte a
    → IsByte b
    → bit_or (bit_and a 0x03 * 2 ^ 4) (bit_and b 0xf0 / 2 ^ 4) ≡ a % 4 * 16 + b / 16
second_index a b ha hb =
    ap₂ (λ x y. bit_or (x * 16) y) (masked a ha).0 (masked b hb).1
    ∙ ap₂ bit_or {x = a % 4 * 16} {y = (a % 4 * 16 + b / 16) / 16 * 16} {u = b / 16}
        {v = (a % 4 * 16 + b / 16) % 16} (omega arith) (omega arith)
    ∙ (joined (a % 4 * 16 + b / 16) (omega arith)).0

pub third_index :
    (a b : ℕ)
    → IsByte a
    → IsByte b
    → bit_or (bit_and a 0x0f * 2 ^ 2) (bit_and b 0xc0 / 2 ^ 6) ≡ a % 16 * 4 + b / 64
third_index a b ha hb =
    ap₂ (λ x y. bit_or (x * 4) y) (masked a ha).2 (masked b hb).3
    ∙ ap₂ bit_or {x = a % 16 * 4} {y = (a % 16 * 4 + b / 64) / 4 * 4} {u = b / 64}
        {v = (a % 16 * 4 + b / 64) % 4} (omega arith) (omega arith)
    ∙ (joined (a % 16 * 4 + b / 64) (omega arith)).1
