-- ===== src/Websocket/Frame.antt =====
-- The frames of websocket.c: how the bytes of one are read, piece by piece as `read_exactly` delivers
-- them, and how `send_frame` writes one.
use cjet.Base.{
  ℕ, zero, suc, ◌/◌, Bool, not, ◌&&◌, List, [], ◌∷◌, ◌++◌, length, take, drop, ltb, ◌==◌, bit_and,
  bit_or, if◌then◌else◌,
}
use cjet.Base.Endian.{big_endian, big_endian_bytes}
use cjet.Websocket.Mask.{unmask_payload}

-- `ws_flags`, `length` and `mask` of `struct websocket`
pub record Websocket : Type 0 where
  pub fin : ℕ
  pub rsv : ℕ
  pub opcode : ℕ
  pub masked : ℕ
  pub length : ℕ
  pub mask : List ℕ

-- The callback that gets the next bytes
pub data Callback : Type 0 where
  ws_get_header ws_get_first_length ws_get_length16 ws_get_length64 ws_get_mask ws_get_payload :
      Callback

-- What a callback does: it asks for so many bytes, it has a frame for `ws_handle_frame`, or it closes
-- with a status code.
pub data Outcome : Type 0 where
  read_exactly : ℕ → Callback → Websocket → Outcome
  handle_frame : Websocket → List ℕ → Outcome
  handle_error : ℕ → Outcome

abbrev pub ws_close_going_away : ℕ
ws_close_going_away = 1001

abbrev pub ws_close_protocol_error : ℕ
ws_close_protocol_error = 1002

-- The endpoint is a server or a client, and the payload is read to this address.
module _ (is_server : Bool) (address : ℕ) where
  -- `ws_get_payload`, up to `ws_handle_frame`
  unfoldable pub get_payload : Websocket → List ℕ → Outcome
  get_payload s buf =
      if length buf == 0 && not (s.length == 0)
      then handle_error ws_close_going_away
      else if is_server && s.masked == 0
      then handle_error ws_close_protocol_error
      else handle_frame s (if s.masked == 0 then buf else unmask_payload address buf s.mask)

  -- `ws_get_mask`
  unfoldable pub get_mask : Websocket → List ℕ → Outcome
  unfolding get_payload
  get_mask s [] = handle_error ws_close_going_away
  get_mask s (b ∷ buf) =
      let s1 = record s { mask = take 4 (b ∷ buf) } in
      if ltb 0 s1.length
      then read_exactly s1.length Callback.ws_get_payload s1
      else get_payload s1 []

  -- `read_mask_or_payload`
  unfoldable pub read_mask_or_payload : Websocket → Outcome
  unfolding get_payload
  read_mask_or_payload s =
      if s.masked == 1
      then read_exactly 4 Callback.ws_get_mask s
      else if ltb 0 s.length
      then read_exactly s.length Callback.ws_get_payload s
      else get_payload s []

  -- `ws_get_length16` and `ws_get_length64`, which differ in the number of bytes
  unfoldable pub get_length : Websocket → List ℕ → Outcome
  unfolding read_mask_or_payload big_endian
  get_length s [] = handle_error ws_close_going_away
  get_length s (b ∷ buf) = read_mask_or_payload (record s { length = big_endian 0 (b ∷ buf) })

  -- `ws_get_first_length`
  unfoldable pub get_first_length : Websocket → List ℕ → Outcome
  unfolding read_mask_or_payload
  get_first_length s [] = handle_error ws_close_going_away
  get_first_length s (field ∷ buf) =
      let s1 = record s { masked = if bit_and field 0x80 == 0x80 then 1 else 0 } in
      let n = bit_and field 0x7F in
      if ltb n 126
      then read_mask_or_payload (record s1 { length = n })
      else if n == 126
      then read_exactly 2 Callback.ws_get_length16 s1
      else read_exactly 8 Callback.ws_get_length64 s1

  -- `ws_get_header`
  unfoldable pub get_header : Websocket → List ℕ → Outcome
  get_header s [] = handle_error ws_close_going_away
  get_header s (field ∷ buf) = read_exactly 1 Callback.ws_get_first_length (record s {
    fin = if bit_and field 0x80 == 0x80 then 1 else 0;
    rsv = bit_and field 0x70 / 16;
    opcode = bit_and field 0x0F;
  })

  -- The call of a callback with the bytes that it asked for
  unfoldable pub call : Callback → Websocket → List ℕ → Outcome
  unfolding get_header get_first_length get_length get_mask get_payload
  call Callback.ws_get_header s buf = get_header s buf
  call Callback.ws_get_first_length s buf = get_first_length s buf
  call Callback.ws_get_length16 s buf = get_length s buf
  call Callback.ws_get_length64 s buf = get_length s buf
  call Callback.ws_get_mask s buf = get_mask s buf
  call Callback.ws_get_payload s buf = get_payload s buf

  -- The connection as the callbacks see it: each gets the bytes that it asks for, while there are enough
  -- of them. A frame takes five reads at most.
  unfoldable pub read_frame : ℕ → Outcome → List ℕ → Outcome × List ℕ
  unfolding call
  read_frame zero outcome bytes = (outcome, bytes)
  read_frame (suc fuel) (handle_frame s payload) bytes = (handle_frame s payload, bytes)
  read_frame (suc fuel) (handle_error status) bytes = (handle_error status, bytes)
  read_frame (suc fuel) (read_exactly n callback s) bytes =
      let rest = read_frame fuel (call callback s (take n bytes)) (drop n bytes) in
      if ltb (length bytes) n then (read_exactly n callback s, bytes) else rest

-- `first_len` and the bytes of a longer length in `send_frame`
unfoldable pub length_field : ℕ → ℕ × List ℕ
unfolding big_endian_bytes
length_field n =
    if ltb n 126
    then (n, [])
    else if ltb n 65536
    then (126, big_endian_bytes 2 n)
    else (127, big_endian_bytes 8 n)

-- `send_frame` for a payload that is not compressed: the bytes that go to `writev`. A client takes the
-- random mask, and masks the payload at its address.
unfoldable pub send_frame : Bool → ℕ → List ℕ → List ℕ → ℕ → List ℕ
unfolding length_field
send_frame is_server address mask payload type =
    let (first_len, longer) = length_field (length payload) in
    if is_server
    then bit_or type 0x80 ∷ (first_len ∷ (longer ++ payload))
    else bit_or type 0x80
      ∷ (bit_or first_len 0x80 ∷ (longer ++ (mask ++ unmask_payload address payload mask)))
