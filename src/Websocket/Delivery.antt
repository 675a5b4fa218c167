-- ===== src/Websocket/Delivery.antt =====
-- A whole frame from `send_frame` to `ws_handle_frame` of websocket.c.
use cjet.Base.{
  ℕ, ◌/◌, ◌^◌, ◌<◌, Bool, true, false, List, [], ◌∷◌, ◌++◌, length, append_assoc, ◌==◌, ==_iff,
  bit_and, bit_or, if◌then◌else◌, ◌≡◌, refl, sym, ap, ◌∙◌, arith, All, inl, inr,
}
use cjet.Websocket.Mask.{unmask_payload}
use cjet.Websocket.Mask.Words.{IsByte}
use cjet.Websocket.Mask.Bytewise.{unmask_payload_twice, length-unmask_payload}
use cjet.Websocket.Frame.{
  Websocket, Callback, Outcome, get_header, call, read_frame, length_field, send_frame,
}
use cjet.Websocket.RoundTrip.{
  header_test, length_test, header_byte, length_byte, read_step, read_plain, read_masked,
  read_length,
}

-- The state of the reader after a single frame with this opcode
unfoldable pub received : ℕ → ℕ → ℕ → Websocket → Websocket
received type masked n s = record s { fin = 1; rsv = 0; opcode = type; masked = masked; length = n }

first_len_small : (n : ℕ) → (length_field n).0 < 128
unfolding length_field
first_len_small n = ground arith

-- What the second byte says without the mask bit, and with it
Says : ℕ → ℕ → ℕ → Type 0
Says b n flag = (bit_and b 0x7F ≡ n) × ((if bit_and b 0x80 == 0x80 then 1 else 0) ≡ flag)

plain_byte : (n : ℕ) → n < 128 → Says n n 0
unfolding length_test Says
plain_byte n small = ground (arith, length_byte n small, ==_iff (bit_and n 0x7F) n)

masked_byte : (n : ℕ) → n < 128 → Says (bit_or n 0x80) n 1
unfolding length_test Says
masked_byte n small = ground (arith, length_byte n small, ==_iff (bit_and (bit_or n 0x80) 0x7F) n)

got_header :
    (is_server : Bool) (address type : ℕ) (s : Websocket)
    → type < 16
    → call is_server address Callback.ws_get_header s (bit_or type 0x80 ∷ [])
      ≡ Outcome.read_exactly 1 Callback.ws_get_first_length
          (record s { fin = 1; rsv = 0; opcode = type })
unfolding call get_header header_test
got_header is_server address type s small = ground (
  arith,
  header_byte type small,
  ==_iff (bit_and (bit_or type 0x80) 0x70 / 16) 0,
  ==_iff (bit_and (bit_or type 0x80) 0x0F) type,
)

-- The first two bytes, and the rest of a frame
module _ (is_server : Bool) (address type b : ℕ) (s : Websocket) (bytes : List ℕ) where
  two_bytes :
      type < 16
      → read_frame is_server address 5
          (Outcome.read_exactly 1 Callback.ws_get_header s)
          (bit_or type 0x80 ∷ (b ∷ bytes))
        ≡ read_frame is_server address 3
            (call is_server address Callback.ws_get_first_length
              (record s { fin = 1; rsv = 0; opcode = type })
              (b ∷ []))
            bytes
  two_bytes small =
      read_step is_server address 4 1 Callback.ws_get_header s (bit_or type 0x80 ∷ []) (b ∷ bytes)
        refl
      ∙ ap (λ o. read_frame is_server address 4 o (b ∷ bytes))
          (got_header is_server address type s small)
      ∙ read_step is_server address 3 1 Callback.ws_get_first_length
          (record s { fin = 1; rsv = 0; opcode = type }) (b ∷ []) bytes refl

-- What a server sends as one uncompressed frame, with a payload of fewer than 2^64 bytes, is read
-- by the callbacks of a client, given the bytes that each asks for, in at most five reads as
-- exactly this frame, and the bytes behind it are left.
pub read_frame-send_frame_server :
    (here there type : ℕ) (s : Websocket) (mask payload rest : List ℕ)
    → type < 16
    → length payload < 2 ^ 64
    → read_frame false there 5
        (Outcome.read_exactly 1 Callback.ws_get_header s)
        (send_frame true here mask payload type ++ rest)
      ≡ (Outcome.handle_frame (received type 0 (length payload) s) payload, rest)
unfolding send_frame received Says
read_frame-send_frame_server here there type s mask payload rest small size =
    let n = length payload in
    let first_len = (length_field n).0 in
    let longer = (length_field n).1 in
    let s1 = record s { fin = 1; rsv = 0; opcode = type } in
    let (field, set) = plain_byte first_len (first_len_small n) in
    let done =
      read_length false there 2 first_len n 0 s1 (payload ++ rest) (omega arith) field set in
    two_bytes false there type first_len s ((longer ++ payload) ++ rest) small
    ∙ ap
        (λ l.
          read_frame false there 3
            (call false there Callback.ws_get_first_length s1 (first_len ∷ [])) l)
        (append_assoc longer payload rest)
    ∙ elim done [
      | inl same ↦
          same ∙ read_plain there 2 (record s1 { masked = 0; length = n }) payload rest refl refl
      | inr same ↦
          same ∙ read_plain there 1 (record s1 { masked = 0; length = n }) payload rest refl refl
    ]

-- What a client sends as one uncompressed frame, with a payload of fewer than 2^64 bytes and a
-- four-byte mask, is read by the callbacks of a server, given the bytes that each asks for, in at
-- most five reads as exactly this frame: final, with its opcode, length and mask and the payload
-- unmasked; the bytes behind it are left.
pub read_frame-send_frame_client :
    (here there type : ℕ) (s : Websocket) (mask payload rest : List ℕ)
    → type < 16
    → length payload < 2 ^ 64
    → length mask ≡ 4
    → All IsByte mask
    → All IsByte payload
    → read_frame true there 5
        (Outcome.read_exactly 1 Callback.ws_get_header s)
        (send_frame false here mask payload type ++ rest)
      ≡ (
        Outcome.handle_frame (record (received type 1 (length payload) s) { mask = mask }) payload,
        rest,
      )
unfolding send_frame received Says
read_frame-send_frame_client here there type s mask payload rest small size four hm hp =
    let n = length payload in
    let first_len = (length_field n).0 in
    let longer = (length_field n).1 in
    let m = unmask_payload here payload mask in
    let s1 = record s { fin = 1; rsv = 0; opcode = type } in
    let s2 = record s1 { masked = 1; length = n } in
    let b = bit_or first_len 0x80 in
    let (field, set) = masked_byte first_len (first_len_small n) in
    let done = read_length true there 2 b n 1 s1 (mask ++ (m ++ rest)) (omega arith) field set in
    let size_m : n ≡ length m = sym (length-unmask_payload here payload mask hm hp) in
    let back =
      ap (λ x. (Outcome.handle_frame (record s2 { mask = mask }) x, rest))
        (unmask_payload_twice here there payload mask hm hp) in
    two_bytes true there type b s ((longer ++ (mask ++ m)) ++ rest) small
    ∙ ap (λ l. read_frame true there 3 (call true there Callback.ws_get_first_length s1 (b ∷ [])) l)
        (append_assoc longer (mask ++ m) rest ∙ ap (λ l. longer ++ l) (append_assoc mask m rest))
    ∙ elim done [
      | inl same ↦ same ∙ read_masked there 1 s2 mask m rest refl size_m four ∙ back
      | inr same ↦ same ∙ read_masked there 0 s2 mask m rest refl size_m four ∙ back
    ]
