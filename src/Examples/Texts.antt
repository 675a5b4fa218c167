-- ===== src/Examples/Texts.antt =====
-- The properties of encoded texts and of written bytes at concrete inputs.
use cjet.Base.{◌==◌, ◌||◌, true, false, ℕ, List, [], ◌∷◌, ◌++◌, length, ◌≡◌, ◌≤◌, refl, arith}
use cjet.Base64.{b64_encode_buffer, b64_encoded_buffer_length}
use cjet.Base64.Decode.{decode, decode-b64_encode_buffer, length-b64_encode_buffer}
use cjet.BufferedSocket.{
  Write, BufferedSocket, send_rest, send_buffer, copy_iovec_to_write_buffer, keep_rest, writev_sent,
  first_write, buffered_socket_writev, joined,
}
use cjet.BufferedSocket.Order.{stream, buffered_socket_writev-stream, buffered_socket_writev-room}
use cjet.Utf8.{complete, is_byte_valid, check_bytes, init_checker, is_byte_sequence_valid}
use cjet.Utf8.Words.{word_bytes, is_word_sequence_valid, is_word64_sequence_valid}
use cjet.Utf8.Words.Zones.{IsShortest}
use cjet.Utf8.Words.Bytewise.{all_bytes, word_checkers-eq}

-- "jets"
abbrev jets : List ℕ
jets = 106 ∷ 101 ∷ 116 ∷ 115 ∷ []

decode-b64_encode_buffer_example : decode (b64_encode_buffer jets) ≡ jets
decode-b64_encode_buffer_example =
    decode-b64_encode_buffer jets (omega arith, (omega arith, (omega arith, (omega arith, tt))))

length-b64_encode_buffer_example :
    length (b64_encode_buffer jets) ≡ b64_encoded_buffer_length (length jets)
length-b64_encode_buffer_example = length-b64_encode_buffer jets (omega arith)

-- Two bytes wait; the next call takes three bytes, the one after it one, and then it would block.
abbrev half_sent : BufferedSocket
half_sent = record {
  write_buffer = 1 ∷ 2 ∷ [];
  wire = 0 ∷ [];
  writes = Write.written 3 ∷ Write.written 1 ∷ Write.would_block ∷ [];
}

abbrev message : List (List ℕ)
message = (0 ∷ 0 ∷ 0 ∷ 2 ∷ []) ∷ jets ∷ []

buffered_socket_writev-stream_example :
    stream (buffered_socket_writev 16 message half_sent).1 ≡ stream half_sent ++ joined message
unfolding buffered_socket_writev first_write writev_sent keep_rest copy_iovec_to_write_buffer
    send_buffer send_rest
buffered_socket_writev-stream_example = buffered_socket_writev-stream 16 message half_sent refl

buffered_socket_writev-room_example :
    length (buffered_socket_writev 16 message half_sent).1.write_buffer ≤ 16
buffered_socket_writev-room_example = buffered_socket_writev-room 16 message half_sent (omega arith)

-- "cafe!" with an acute accent, in a slow word and the rest of a character; then a fast word of 64 bits
abbrev cafe : List ℕ
cafe = 0xC3666163 ∷ 0x21A9C3A9 ∷ []

abbrev cafe64 : List ℕ
cafe64 = 0xA9C3A9C3A9C3A9C3 ∷ 0x6162636465666768 ∷ []

-- By the numbers of the bytes
shortest : (b : ℕ) → (b == 0xC0 || b == 0xC1) ≡ false → IsShortest b
shortest b h = (ground arith, ground arith)

word_checkers-eq_example :
    (is_word_sequence_valid init_checker cafe true
      ≡ is_byte_sequence_valid init_checker (all_bytes 4 cafe) true)
    × (is_word64_sequence_valid init_checker cafe64 true
        ≡ is_byte_sequence_valid init_checker (all_bytes 8 cafe64) true)
word_checkers-eq_example =
    word_checkers-eq init_checker cafe cafe64 true (λ _. refl)
      (
        (shortest _ refl, (shortest _ refl, (shortest _ refl, (shortest _ refl, tt)))),
        ((shortest _ refl, (shortest _ refl, (shortest _ refl, (shortest _ refl, tt)))), tt),
      )
      (
        (
          shortest _ refl,
          (
            shortest _ refl,
            (
              shortest _ refl,
              (
                shortest _ refl,
                (shortest _ refl, (shortest _ refl, (shortest _ refl, (shortest _ refl, tt)))),
              ),
            ),
          ),
        ),
        (
          (
            shortest _ refl,
            (
              shortest _ refl,
              (
                shortest _ refl,
                (
                  shortest _ refl,
                  (shortest _ refl, (shortest _ refl, (shortest _ refl, (shortest _ refl, tt)))),
                ),
              ),
            ),
          ),
          tt,
        ),
      )

-- 0xC0 0x80 0xC2 0x80: an overlong character in a word of two pairs is let through, and refused byte by byte.
overlong_word :
    ((is_word_sequence_valid init_checker (0x80C280C0 ∷ []) true).0 ≡ true)
    × ((is_byte_sequence_valid init_checker (word_bytes 4 0x80C280C0) true).0 ≡ false)
unfolding is_word_sequence_valid is_byte_sequence_valid check_bytes is_byte_valid complete
overlong_word = (refl, refl)
