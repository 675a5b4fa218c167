-- ===== src/Utf8/Words/Zones.antt =====
-- The tests of one word in utf8_checker.c, as tests of its bytes.
use cjet.Base.{
  ℕ, zero, suc, ◌/◌, ◌%◌, ◌≤◌, ◌<◌, true, not, ◌&&◌, ◌||◌, ◌==◌, leb, bit_and, ◌≡◌, ◌≢◌, refl, ◌∙◌,
  arith, List, ◌∷◌, ◌++◌, inl, inr, ◌⊎◌, All,
}
use cjet.Base.Bits.{passes_up_to, passes_up_to_lem, bit_and_split, bit_and-lt}
use cjet.Utf8.{init_checker, check_bytes, is_second_byte_out_of_range}
use cjet.Utf8.Steps.{
  check-ascii, check_step, lead_step, second_step, within, in_continuation, second_ok,
}
use cjet.Utf8.Words.{is_fast_word, is_fast_word64, word_bytes}

-- A byte that begins a character in its shortest encoding, if it begins one of two bytes
abbrev pub IsShortest : ℕ → Type 0
IsShortest b = (b ≢ 0xC0) × (b ≢ 0xC1)

-- The tests of the `n` lowest bytes
abbrev ZoneBytes : ℕ → ℕ → ℕ → ℕ → Type 0
ZoneBytes zero w m v = Unit
ZoneBytes (suc n) w m v =
    (bit_and (w % 256) (m % 256) ≡ v % 256) × ZoneBytes n (w / 256) (m / 256) (v / 256)

zone_bytes : (n w m v : ℕ) → bit_and w m ≡ v → ZoneBytes n w m v
zone_bytes zero w m v h = tt
zone_bytes (suc n) w m v h =
    let small = bit_and-lt 8 (w % 256) (m % 256) (omega arith) in
    let low = bit_and_split 8 w m in
    (
      omega (arith, low, small),
      zone_bytes n (w / 256) (m / 256) (v / 256) (omega (arith, low, small)),
    )

-- What the masks say of a byte
mask_table :
    passes_up_to
      (λ b.
        (not (bit_and b 0x80 == 0) || leb b 0x7F)
        && (not (bit_and b 0xE0 == 0xC0) || (leb 0xC0 b && leb b 0xDF))
        && (not (bit_and b 0xC0 == 0x80) || in_continuation b))
      256
    ≡ true
unfolding passes_up_to
mask_table = refl

ascii_mask : (b : ℕ) → b < 256 → bit_and b 0x80 ≡ 0 → b ≤ 0x7F
ascii_mask b small h = ground (arith, passes_up_to_lem _ 256 {k = b} small mask_table)

lead_mask : (b : ℕ) → b < 256 → bit_and b 0xE0 ≡ 0xC0 → (0xC0 ≤ b) × (b ≤ 0xDF)
lead_mask b small h = ground (arith, passes_up_to_lem _ 256 {k = b} small mask_table)

next_mask : (b : ℕ) → b < 256 → bit_and b 0xC0 ≡ 0x80 → in_continuation b ≡ true
next_mask b small h = ground (arith, passes_up_to_lem _ 256 {k = b} small mask_table)

-- After `0xC2` to `0xDF`, each continuation byte is in the range.
second_free : (a b : ℕ) → a ≤ 0xDF → in_continuation b ≡ true → second_ok a b ≡ true
unfolding is_second_byte_out_of_range
second_free a b range follows = ground arith

-- The characters that a fast word holds
module _ (rest : List ℕ) where
  skip_ascii :
      (w : ℕ)
      → bit_and (w % 256) 0x80 ≡ 0
      → check_bytes init_checker (w % 256 ∷ rest) ≡ check_bytes init_checker rest
  skip_ascii w h = check-ascii (w % 256) rest (ascii_mask (w % 256) (omega arith) h)

  skip_pair :
      (w x : ℕ)
      → IsShortest (w % 256)
      → bit_and (w % 256) 0xE0 ≡ 0xC0
      → bit_and (x % 256) 0xC0 ≡ 0x80
      → check_bytes init_checker (w % 256 ∷ x % 256 ∷ rest) ≡ check_bytes init_checker rest
  skip_pair w x shortest lead next =
      let a = w % 256 in
      let b = x % 256 in
      let range : (0xC0 ≤ a) × (a ≤ 0xDF) = lead_mask a (omega arith) lead in
      let from : 0xC2 ≤ a = omega (arith, shortest.0, shortest.1) in
      let ok = second_free a b range.1 (next_mask b (omega arith) next) in
      check_step init_checker (within a 2 1) a (b ∷ rest)
        (lead_step a 2 (inl (from, range.1, refl)))
      ∙ check_step (within a 2 1) init_checker b rest (second_step a 2 b (omega arith) ok)

-- The zones of the fast words
word_zones :
    (w : ℕ)
    → is_fast_word w ≡ true
    → (bit_and w 0x80808080 ≡ 0)
      ⊎ (bit_and w 0x8080C0E0 ≡ 0x80C0)
      ⊎ (bit_and w 0x80C0E080 ≡ 0x80C000)
      ⊎ (bit_and w 0xC0E08080 ≡ 0x80C00000)
      ⊎ (bit_and w 0xC0E0C0E0 ≡ 0x80C080C0)
unfolding is_fast_word
word_zones w h = ground arith

word64_zones :
    (w : ℕ)
    → is_fast_word64 w ≡ true
    → (bit_and w 0x8080808080808080 ≡ 0) ⊎ (bit_and w 0xC0E0C0E0C0E0C0E0 ≡ 0x80C080C080C080C0)
unfolding is_fast_word64
word64_zones w h = ground arith

-- A fast word changes nothing, from the state between two characters.
pub skip_word :
    (w : ℕ) (rest : List ℕ)
    → All IsShortest (word_bytes 4 w)
    → is_fast_word w ≡ true
    → check_bytes init_checker (word_bytes 4 w ++ rest) ≡ check_bytes init_checker rest
skip_word w rest shortest fast = elim (word_zones w fast) [
  | inl ascii ↦
      let z = zone_bytes 4 w _ _ ascii in
      skip_ascii _ w z.0
      ∙ skip_ascii _ (w / 256) z.1.0
      ∙ skip_ascii _ (w / 256 / 256) z.1.1.0
      ∙ skip_ascii rest (w / 256 / 256 / 256) z.1.1.1.0
  | inr (inl first) ↦
      let z = zone_bytes 4 w _ _ first in
      skip_pair _ w (w / 256) shortest.0 z.0 z.1.0
      ∙ skip_ascii _ (w / 256 / 256) z.1.1.0
      ∙ skip_ascii rest (w / 256 / 256 / 256) z.1.1.1.0
  | inr (inr (inl second)) ↦
      let z = zone_bytes 4 w _ _ second in
      skip_ascii _ w z.0
      ∙ skip_pair _ (w / 256) (w / 256 / 256) shortest.1.0 z.1.0 z.1.1.0
      ∙ skip_ascii rest (w / 256 / 256 / 256) z.1.1.1.0
  | inr (inr (inr (inl third))) ↦
      let z = zone_bytes 4 w _ _ third in
      skip_ascii _ w z.0
      ∙ skip_ascii _ (w / 256) z.1.0
      ∙ skip_pair rest (w / 256 / 256) (w / 256 / 256 / 256) shortest.1.1.0 z.1.1.0 z.1.1.1.0
  | inr (inr (inr (inr both))) ↦
      let z = zone_bytes 4 w _ _ both in
      skip_pair _ w (w / 256) shortest.0 z.0 z.1.0
      ∙ skip_pair rest (w / 256 / 256) (w / 256 / 256 / 256) shortest.1.1.0 z.1.1.0 z.1.1.1.0
]

pub skip_word64 :
    (w : ℕ) (rest : List ℕ)
    → All IsShortest (word_bytes 8 w)
    → is_fast_word64 w ≡ true
    → check_bytes init_checker (word_bytes 8 w ++ rest) ≡ check_bytes init_checker rest
skip_word64 w rest shortest fast = elim (word64_zones w fast) [
  | inl ascii ↦
      let z = zone_bytes 8 w _ _ ascii in
      skip_ascii _ w z.0
      ∙ skip_ascii _ (w / 256) z.1.0
      ∙ skip_ascii _ (w / 256 / 256) z.1.1.0
      ∙ skip_ascii _ (w / 256 / 256 / 256) z.1.1.1.0
      ∙ skip_ascii _ (w / 256 / 256 / 256 / 256) z.1.1.1.1.0
      ∙ skip_ascii _ (w / 256 / 256 / 256 / 256 / 256) z.1.1.1.1.1.0
      ∙ skip_ascii _ (w / 256 / 256 / 256 / 256 / 256 / 256) z.1.1.1.1.1.1.0
      ∙ skip_ascii rest (w / 256 / 256 / 256 / 256 / 256 / 256 / 256) z.1.1.1.1.1.1.1.0
  | inr pairs ↦
      let z = zone_bytes 8 w _ _ pairs in
      skip_pair _ w (w / 256) shortest.0 z.0 z.1.0
      ∙ skip_pair _ (w / 256 / 256) (w / 256 / 256 / 256) shortest.1.1.0 z.1.1.0 z.1.1.1.0
      ∙ skip_pair _ (w / 256 / 256 / 256 / 256) (w / 256 / 256 / 256 / 256 / 256) shortest.1.1.1.1.0
          z.1.1.1.1.0 z.1.1.1.1.1.0
      ∙ skip_pair rest (w / 256 / 256 / 256 / 256 / 256 / 256)
          (w / 256 / 256 / 256 / 256 / 256 / 256 / 256) shortest.1.1.1.1.1.1.0 z.1.1.1.1.1.1.0
          z.1.1.1.1.1.1.1.0
]
