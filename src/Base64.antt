-- ===== src/Base64.antt =====
-- Base64: src/base64.c, which encodes the accept key of a WebSocket upgrade. Base64/Indices
-- has the bits of its indices, Base64/Decode the decoder of RFC 4648.
use cjet.Base.{
  ℕ, ◌+◌, ◌*◌, ◌/◌, ◌%◌, ◌^◌, List, [], ◌∷◌, ◌++◌, get_or, ltb, bit_and, bit_or, if◌then◌else◌,
}
use cjet.Base.Str.{Str, codes}
pub mod Indices
pub mod Decode

-- `encode_table`
abbrev pub encode_table : Str
encode_table = codes "ABCDEFGHIJKLMNOPQRSTUVWXYZabcdefghijklmnopqrstuvwxyz0123456789+/"

-- An entry of the table. Every index that the encoder makes of bytes is below 64.
unfoldable pub symbol : ℕ → ℕ
symbol i = get_or encode_table i 0

-- '='
abbrev pub padding : ℕ
padding = 61

-- The four characters `tmp` of the bytes `triple`, of which `len` come from the input
unfoldable pub encode_triple : ℕ → ℕ → ℕ → ℕ → List ℕ
encode_triple len b0 b1 b2 =
    symbol (b0 / 2 ^ 2)
    ∷ symbol (bit_or (bit_and b0 0x03 * 2 ^ 4) (bit_and b1 0xf0 / 2 ^ 4))
    ∷ (if ltb 1 len
        then symbol (bit_or (bit_and b1 0x0f * 2 ^ 2) (bit_and b2 0xc0 / 2 ^ 6))
        else padding)
    ∷ (if ltb 2 len then symbol (bit_and b2 0x3f) else padding)
    ∷ []

-- `b64_encode_buffer`: bytes that are missing from the last triple are zero.
unfoldable pub b64_encode_buffer : List ℕ → List ℕ
unfolding encode_triple
b64_encode_buffer [] = []
b64_encode_buffer (b0 ∷ []) = encode_triple 1 b0 0 0
b64_encode_buffer (b0 ∷ b1 ∷ []) = encode_triple 2 b0 b1 0
b64_encode_buffer (b0 ∷ b1 ∷ b2 ∷ bs) = encode_triple 3 b0 b1 b2 ++ b64_encode_buffer bs

-- `b64_encoded_buffer_length`, on a 64-bit `size_t`
unfoldable pub b64_encoded_buffer_length : ℕ → ℕ
b64_encoded_buffer_length input_length = 4 * ((input_length + 2) % 2 ^ 64 / 3) % 2 ^ 64
