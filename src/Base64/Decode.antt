-- ===== src/Base64/Decode.antt =====
-- The encoder of base64.c against the decoder of RFC 4648.
use cjet.Base.{
  ℕ, ◌+◌, ◌-◌, ◌*◌, ◌/◌, ◌%◌, ◌^◌, ◌<◌, Bool, true, false, not, ◌&&◌, List, [], ◌∷◌, ◌++◌, length,
  All, leb, ◌==◌, if◌then◌else◌, ◌≡◌, refl, ap, ap₂, ◌∙◌, arith,
}
use cjet.Base.Bits.{passes_up_to, passes_up_to_lem}
use cjet.Base64.Indices.{masked, second_index, third_index}
use cjet.Utf8.Correct.{IsByte}
use cjet.Base64.{symbol, padding, encode_triple, b64_encode_buffer, b64_encoded_buffer_length}

-- The six bits that a character of the alphabet stands for
unfoldable pub sextet : ℕ → ℕ
sextet c =
    if leb 97 c
    then c - 71
    else (if leb 65 c then c - 65 else (if leb 48 c then c + 4 else (if c == 43 then 62 else 63)))

-- The first, second and third byte of four characters
unfoldable pub first_of_four : ℕ → ℕ → ℕ
unfolding sextet
first_of_four c0 c1 = sextet c0 * 4 + sextet c1 / 16

unfoldable pub second_of_four : ℕ → ℕ → ℕ
unfolding sextet
second_of_four c1 c2 = sextet c1 % 16 * 16 + sextet c2 / 4

unfoldable pub third_of_four : ℕ → ℕ → ℕ
unfolding sextet
third_of_four c2 c3 = sextet c2 % 4 * 64 + sextet c3

-- The bytes of four characters, by their padding
unfoldable pub four : ℕ → ℕ → ℕ → ℕ → List ℕ
unfolding first_of_four second_of_four third_of_four
four c0 c1 c2 c3 =
    if c2 == padding
    then first_of_four c0 c1 ∷ []
    else (if c3 == padding
        then first_of_four c0 c1 ∷ second_of_four c1 c2 ∷ []
        else first_of_four c0 c1 ∷ second_of_four c1 c2 ∷ third_of_four c2 c3 ∷ [])

unfoldable pub decode : List ℕ → List ℕ
unfolding four
decode (c0 ∷ c1 ∷ c2 ∷ c3 ∷ cs) = four c0 c1 c2 c3 ++ decode cs
decode _ = []

-- The table and its inverse; no entry is the padding.
table_test : ℕ → Bool
unfolding symbol sextet
table_test i = (sextet (symbol i) == i) && not (symbol i == padding)

table : passes_up_to table_test 64 ≡ true
unfolding passes_up_to table_test
table = refl

sextet-symbol : (i : ℕ) → i < 64 → sextet (symbol i) ≡ i
unfolding table_test
sextet-symbol i small = ground (arith, passes_up_to_lem table_test 64 {k = i} small table)

symbol-padding : (i : ℕ) → i < 64 → (symbol i == padding) ≡ false
unfolding table_test
symbol-padding i small = ground (arith, passes_up_to_lem table_test 64 {k = i} small table)

four-symbols :
    (i j k l : ℕ)
    → i < 64
    → j < 64
    → k < 64
    → l < 64
    → four (symbol i) (symbol j) (symbol k) (symbol l)
      ≡ (i * 4 + j / 16) ∷ (j % 16 * 16 + k / 4) ∷ (k % 4 * 64 + l) ∷ []
unfolding four first_of_four second_of_four third_of_four
four-symbols i j k l hi hj hk hl = simp (
  symbol-padding k hk,
  symbol-padding l hl,
  sextet-symbol i hi,
  sextet-symbol j hj,
  sextet-symbol k hk,
  sextet-symbol l hl,
)

four-three_symbols :
    (i j k : ℕ)
    → i < 64
    → j < 64
    → k < 64
    → four (symbol i) (symbol j) (symbol k) padding ≡ (i * 4 + j / 16) ∷ (j % 16 * 16 + k / 4) ∷ []
unfolding four first_of_four second_of_four
four-three_symbols i j k hi hj hk =
    simp (symbol-padding k hk, sextet-symbol i hi, sextet-symbol j hj, sextet-symbol k hk)

four-two_symbols :
    (i j : ℕ) → i < 64 → j < 64 → four (symbol i) (symbol j) padding padding ≡ (i * 4 + j / 16) ∷ []
unfolding four first_of_four
four-two_symbols i j hi hj = simp (sextet-symbol i hi, sextet-symbol j hj)

-- The indices of a triple, put together again
module _ (a b c : ℕ) (ha : IsByte a) (hb : IsByte b) (hc : IsByte c) where
  triple_bytes :
      (cs : List ℕ)
      → ((a / 4 * 4 + (a % 4 * 16 + b / 16) / 16)
          ∷ ((a % 4 * 16 + b / 16) % 16 * 16 + (b % 16 * 4 + c / 64) / 4)
          ∷ ((b % 16 * 4 + c / 64) % 4 * 64 + c % 64)
          ∷ cs)
        ≡ a ∷ b ∷ c ∷ cs
  triple_bytes cs =
      ap₂ (λ x r. x ∷ r) (omega arith) (ap₂ (λ x y. x ∷ y ∷ cs) (omega arith) (omega arith))

  decode-three : (cs : List ℕ) → decode (encode_triple 3 a b c ++ cs) ≡ a ∷ b ∷ c ∷ decode cs
  unfolding encode_triple decode
  decode-three cs = simp (
    second_index a b ha hb,
    third_index b c hb hc,
    (masked c hc).4,
    four-symbols (a / 4) (a % 4 * 16 + b / 16) (b % 16 * 4 + c / 64) (c % 64) (omega arith)
        (omega arith) (omega arith) (omega arith),
    triple_bytes (decode cs),
  )

-- The bytes of an incomplete triple: the indices hold zeros behind them.
module _ (a b : ℕ) (ha : IsByte a) (hb : IsByte b) where
  zero-IsByte : IsByte 0
  zero-IsByte = omega arith

  pair_bytes :
      ((a / 4 * 4 + (a % 4 * 16 + b / 16) / 16)
        ∷ ((a % 4 * 16 + b / 16) % 16 * 16 + (b % 16 * 4 + 0 / 64) / 4)
        ∷ [])
      ≡ a ∷ b ∷ []
  pair_bytes = ap₂ (λ x y. x ∷ y ∷ []) (omega arith) (omega arith)

  decode-two : decode (encode_triple 2 a b 0) ≡ a ∷ b ∷ []
  unfolding encode_triple decode
  decode-two = simp (
    second_index a b ha hb,
    third_index b 0 hb zero-IsByte,
    four-three_symbols (a / 4) (a % 4 * 16 + b / 16) (b % 16 * 4 + 0 / 64) (omega arith)
        (omega arith) (omega arith),
    pair_bytes,
  )

module _ (a : ℕ) (ha : IsByte a) where
  single_byte : ((a / 4 * 4 + (a % 4 * 16 + 0 / 16) / 16) ∷ []) ≡ a ∷ []
  single_byte = ap (λ x. x ∷ []) (omega arith)

  decode-one : decode (encode_triple 1 a 0 0) ≡ a ∷ []
  unfolding encode_triple decode
  decode-one = simp (
    second_index a 0 ha (omega arith),
    four-two_symbols (a / 4) (a % 4 * 16 + 0 / 16) (omega arith) (omega arith),
    single_byte,
  )

-- For bytes, the base64 decoder of RFC 4648 takes what b64_encode_buffer writes back to them, the
-- padding of an incomplete triple included.
pub decode-b64_encode_buffer :
    (bytes : List ℕ) → All IsByte bytes → decode (b64_encode_buffer bytes) ≡ bytes
unfolding b64_encode_buffer decode
decode-b64_encode_buffer [] h = refl
decode-b64_encode_buffer (a ∷ []) h = decode-one a h.0
decode-b64_encode_buffer (a ∷ b ∷ []) h = decode-two a b h.0 h.1.0
decode-b64_encode_buffer (a ∷ b ∷ c ∷ bytes) h =
    decode-three a b c h.0 h.1.0 h.1.1.0 (b64_encode_buffer bytes)
    ∙ ap (λ l. a ∷ b ∷ c ∷ l) (decode-b64_encode_buffer bytes h.1.1.1)

length-blocks : (bytes : List ℕ) → length (b64_encode_buffer bytes) ≡ 4 * ((length bytes + 2) / 3)
unfolding b64_encode_buffer encode_triple
length-blocks [] = omega arith
length-blocks (a ∷ []) = omega arith
length-blocks (a ∷ b ∷ []) = omega arith
length-blocks (a ∷ b ∷ c ∷ bytes) = omega (arith, length-blocks bytes)

-- For fewer than 3 * 2^62 - 2 bytes, b64_encoded_buffer_length is the number of characters that
-- b64_encode_buffer writes.
pub length-b64_encode_buffer :
    (bytes : List ℕ)
    → length bytes < 3 * 2 ^ 62 - 2
    → length (b64_encode_buffer bytes) ≡ b64_encoded_buffer_length (length bytes)
unfolding b64_encoded_buffer_length
length-b64_encode_buffer bytes small = omega (arith, length-blocks bytes)
