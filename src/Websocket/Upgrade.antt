-- ===== src/Websocket/Upgrade.antt =====
-- The upgrade of an HTTP connection in websocket.c: the header lines that the HTTP parser reports, and
-- the answer. `at` is the memory from the value on, of which `length` bytes are the value; a byte behind
-- the list reads as 0. Websocket/Extensions has the negotiation of the compression.
pub mod Headers
pub mod Protocols
use cjet.Base.{
  ℕ, zero, suc, ◌+◌, ◌*◌, ◌^◌, Bool, true, false, not, ◌&&◌, ◌||◌, Option, none, some, List, [],
  ◌∷◌, ◌++◌, length, take, drop, leb, ltb, ◌==◌, if◌then◌else◌,
}
use cjet.Base.Str.{Str, codes, strn_eq, strncase_eq}
use cjet.Base64.{b64_encode_buffer}
use cjet.Websocket.Parameters.{byte_at, is_space}
use cjet.Websocket.Extensions.{ExtensionCompression, fill_requested_extension, levels}

-- `enum header_field`
pub data HeaderField : Type 0 where
  unknown sec_websocket_key sec_websocket_version sec_websocket_protocol : HeaderField
  sec_websocket_extensions : HeaderField

-- The fields of `struct websocket` that the upgrade uses; `name` and `found` are its `sub_protocol`.
pub record Upgrade : Type 0 where
  pub sec_web_socket_key : List ℕ
  pub current_header_field : HeaderField
  pub protocol_requested : Bool
  pub name : Option Str
  pub found : Bool
  pub extension_compression : ExtensionCompression

-- `memset` to 0
abbrev pub zeros : ℕ → List ℕ
zeros zero = []
zeros (suc n) = 0 ∷ zeros n

-- `websocket_init`, with a sub-protocol or none, the level of the connection and an error routine
unfoldable pub websocket_init : Option Str → ℕ → Option Upgrade
unfolding levels
websocket_init sub_protocol compression_level = elim (levels compression_level) [
  | none ↦ none
  | some e ↦ some (record {
    sec_web_socket_key = zeros 60;
    current_header_field = HeaderField.unknown;
    protocol_requested = false;
    name = sub_protocol;
    found = false;
    extension_compression = e;
  })
]

-- The length of the name and its letters, of any case
unfoldable is_field : Str → Str → ℕ → Bool
is_field name at size = length name == size && strncase_eq size at name

-- `websocket_upgrade_on_header_field`
unfoldable pub on_header_field : Upgrade → Str → ℕ → Upgrade
unfolding is_field
on_header_field s at size =
    if is_field (codes "Sec-WebSocket-Key") at size
    then record s { current_header_field = HeaderField.sec_websocket_key }
    else if is_field (codes "Sec-WebSocket-Version") at size
    then record s { current_header_field = HeaderField.sec_websocket_version }
    else if is_field (codes "Sec-WebSocket-Protocol") at size
    then record s { current_header_field = HeaderField.sec_websocket_protocol }
    else if is_field (codes "Sec-WebSocket-Extensions") at size
    then record s { current_header_field = HeaderField.sec_websocket_extensions }
    else s

abbrev ws_guid : Str
ws_guid = codes "258EAFA5-E914-47DA-95CA-C5AB0DC85B11"

-- `save_websocket_key`, none for -1
unfoldable pub save_websocket_key : Str → ℕ → Option (List ℕ)
save_websocket_key at size = if size == 24 then some (take size at ++ ws_guid) else none

-- `check_websocket_version`, true for 0
unfoldable pub check_websocket_version : Str → ℕ → Bool
check_websocket_version at size = size == 2 && strn_eq size at (codes "13")

-- `fill_requested_sub_protocol`. Without a sub-protocol it calls `strlen` of NULL, which has no defined
-- result; here it then changes nothing.
unfoldable pub fill_requested_sub_protocol : Upgrade → Str → ℕ → Upgrade
fill_requested_sub_protocol s start size = elim s.name [
  | none ↦ s
  | some name ↦
      if length name == size && strn_eq size name start then record s { found = true } else s
]

-- The loop of `check_websocket_protocol` and of `check_websocket_extensions` over the pieces between
-- commas, less the spaces before them: `piece` is the start of the piece that is read, with its length.
module _ (fill : Upgrade → Str → ℕ → Upgrade) where
  unfoldable pub for_each_piece : ℕ → Str → Option (Str × ℕ) → Upgrade → Upgrade
  for_each_piece zero at none s = s
  for_each_piece zero at (some (start, len)) s = fill s start len
  for_each_piece (suc size) at none s =
      let c = byte_at 0 at in
      let within = for_each_piece size (drop 1 at) (some (at, 1)) s in
      let between = for_each_piece size (drop 1 at) none s in
      if not (is_space c) && not (c == b',') then within else between
  for_each_piece (suc size) at (some (start, len)) s =
      let ended = for_each_piece size (drop 1 at) none (fill s start len) in
      let longer = for_each_piece size (drop 1 at) (some (start, len + 1)) s in
      if byte_at 0 at == b',' then ended else longer

-- `check_websocket_protocol`
unfoldable pub check_websocket_protocol : Upgrade → Str → ℕ → Upgrade
unfolding for_each_piece fill_requested_sub_protocol
check_websocket_protocol s at size = for_each_piece fill_requested_sub_protocol size at none s

-- `check_websocket_extensions`
unfoldable pub check_websocket_extensions : Upgrade → Str → ℕ → Upgrade
unfolding for_each_piece fill_requested_extension
check_websocket_extensions s at size =
    for_each_piece
      (λ s start len. record s {
        extension_compression = fill_requested_extension s.extension_compression start len;
      })
      size at none s

-- The `switch` of `websocket_upgrade_on_header_value`: true for 0, and the websocket
unfoldable pub take_value : HeaderField → Upgrade → Str → ℕ → Bool × Upgrade
unfolding check_websocket_protocol check_websocket_extensions
take_value unknown s at size = (true, s)
take_value sec_websocket_key s at size = elim (save_websocket_key at size) [
  | none ↦ (false, s)
  | some key ↦ (true, record s { sec_web_socket_key = key })
]
take_value sec_websocket_version s at size = (check_websocket_version at size, s)
take_value sec_websocket_protocol s at size =
    (true, check_websocket_protocol (record s { protocol_requested = true }) at size)
take_value sec_websocket_extensions s at size = (true, check_websocket_extensions s at size)

-- `websocket_upgrade_on_header_value`
unfoldable pub on_header_value : Upgrade → Str → ℕ → Bool × Upgrade
unfolding take_value
on_header_value s at size =
    let (ret, s') = take_value s.current_header_field s at size in
    (ret, record s' { current_header_field = HeaderField.unknown })

-- What `on_headers_complete` looks at in the HTTP parser
pub record HttpParser : Type 0 where
  pub http_major : ℕ
  pub http_minor : ℕ
  pub is_get : Bool
  pub upgrade : Bool

-- `check_http_version`, true for 0
unfoldable pub check_http_version : HttpParser → Bool
check_http_version p = ltb 1 p.http_major || (p.http_major == 1 && leb 1 p.http_minor)

abbrev crlf : Str
crlf = 13 ∷ 10 ∷ []

-- The digest of sha1.c and the write function of the connection, true for a result that is not negative
module _ (sha1 : List ℕ → List ℕ) (writev : List Str → Bool) where
  -- `send_upgrade_response`: its result, and what it hands to the write function
  unfoldable pub send_upgrade_response : Upgrade → Bool × List Str
  send_upgrade_response s =
      let extensions : List Str =
        if s.extension_compression.accepted
        then (crlf ++ codes "Sec-WebSocket-Extensions: ") ∷ s.extension_compression.response ∷ []
        else [] in
      let protocol : List Str = (elim s.name [
        | none ↦ []
        | some name ↦ (crlf ++ codes "Sec-WebSocket-Protocol: ") ∷ (name ∷ [])
      ]) in
      let iov =
        (codes "HTTP/1.1 101 Switching Protocols"
          ++ (crlf
              ++ (codes "Upgrade: websocket"
                  ++ (crlf
                      ++ (codes "Connection: Upgrade"
                          ++ (crlf ++ codes "Sec-WebSocket-Accept: "))))))
        ∷ b64_encode_buffer (sha1 s.sec_web_socket_key)
        ∷ (protocol ++ (extensions ++ ((crlf ++ crlf) ∷ []))) in
      if s.protocol_requested && not s.found then (false, []) else (writev iov, iov)

  -- `websocket_upgrade_on_headers_complete`, true for 1
  unfoldable pub on_headers_complete : HttpParser → Upgrade → Bool × List Str
  unfolding send_upgrade_response
  on_headers_complete p s =
      if not (check_http_version p)
      then (false, [])
      else if not p.is_get
      then (false, [])
      else if not p.upgrade
      then (false, [])
      else send_upgrade_response s
