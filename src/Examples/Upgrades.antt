-- ===== src/Examples/Upgrades.antt =====
-- The properties of the upgrade at concrete inputs.
use cjet.Base.{
  true, false, some, List, [], ◌∷◌, ◌++◌, length, ◌≡◌, ◌≢◌, refl, if◌then◌else◌, ◌&&◌, ◌||◌,
}
use cjet.Base.Str.{Str, codes, strn_eq, strncase_eq, to_lower}
use cjet.Websocket.Parameters.{is_space}
use cjet.Websocket.Extensions.{levels}
use cjet.Websocket.Extensions.Fits.{Fits}
use cjet.Websocket.Upgrade.{
  Upgrade, HeaderField, HttpParser, websocket_init, zeros, on_header_value, take_value,
  check_websocket_protocol, for_each_piece, fill_requested_sub_protocol, send_upgrade_response,
  on_headers_complete, check_http_version,
}
use cjet.Websocket.Upgrade.Headers.{HeaderEvent, receive, receive-Fits}
use cjet.Websocket.Upgrade.Protocols.{
  asks_for, on_header_value-protocol, on_headers_complete-protocol,
}

abbrev jet : Str
jet = codes "jet"

-- A new websocket of level 2
abbrev started : Upgrade
started = record {
  sec_web_socket_key = zeros 60;
  current_header_field = HeaderField.unknown;
  protocol_requested = false;
  name = some jet;
  found = false;
  extension_compression = record {
    name = codes "permessage-deflate";
    compression_level = 2;
    client_max_window_bits = 12;
    client_no_context_takeover = false;
    server_max_window_bits = 12;
    server_no_context_takeover = false;
    response = [];
    accepted = false;
  };
}

abbrev offer : Str
offer = codes "permessage-deflate; client_max_window_bits; server_max_window_bits=10"

abbrev lines : List HeaderEvent
lines =
    HeaderEvent.field (codes "Sec-WebSocket-Extensions") 24
    ∷ HeaderEvent.value offer (length offer)
    ∷ []

new_websocket : websocket_init (some jet) 2 ≡ some started
unfolding websocket_init levels
new_websocket = refl

-- The answer to this offer
answered :
    (receive lines started).1.extension_compression.response
    ≡ codes "permessage-deflate; client_max_window_bits=12; server_max_window_bits=10"
unfolding receive strncase_eq strn_eq to_lower is_space
answered = refl

receive-Fits_example : Fits ((receive lines started).1.extension_compression)
receive-Fits_example = receive-Fits (some jet) 2 started lines new_websocket

-- Within the line Sec-WebSocket-Protocol
abbrev protocol_line : Upgrade
protocol_line = record started { current_header_field = HeaderField.sec_websocket_protocol }

abbrev asked : Str
asked = codes "chat, jet"

named : jet ≢ []
named e = cc

on_header_value-protocol_example : on_header_value protocol_line (asked ++ []) (length asked) ≡ (
  true,
  record protocol_line {
    current_header_field = HeaderField.unknown;
    protocol_requested = true;
    found = false || asks_for jet asked;
  },
)
on_header_value-protocol_example =
    on_header_value-protocol jet protocol_line asked [] refl named refl

-- The websocket after it
abbrev protocol_known : Upgrade
protocol_known = record started { protocol_requested = true; found = true }

asked_line : on_header_value protocol_line (asked ++ []) (length asked) ≡ (true, protocol_known)
unfolding on_header_value take_value check_websocket_protocol for_each_piece
    fill_requested_sub_protocol is_space strn_eq
asked_line = refl

abbrev request : HttpParser
request = record { http_major = 1; http_minor = 1; is_get = true; upgrade = true }

on_headers_complete-protocol_example :
    on_headers_complete (λ key. key) (λ iov. true) request protocol_known ≡ (
      if check_http_version request && true && true && asks_for jet asked
      then send_upgrade_response (λ key. key) (λ iov. true) protocol_known
      else (false, []))
on_headers_complete-protocol_example =
    on_headers_complete-protocol (λ key. key) (λ iov. true) request protocol_line protocol_known jet
      asked [] refl named refl refl asked_line

-- The first offer is refused for an unknown parameter, yet its limit stands in the answer to the second one.
abbrev two_offers : Str
two_offers =
    codes
      "permessage-deflate; server_max_window_bits=9; unknown_parameter_of_it, permessage-deflate"

abbrev two_lines : List HeaderEvent
two_lines =
    HeaderEvent.field (codes "Sec-WebSocket-Extensions") 24
    ∷ HeaderEvent.value two_offers (length two_offers)
    ∷ []

leftover_answered :
    (receive two_lines started).1.extension_compression.response
    ≡ codes "permessage-deflate; server_max_window_bits=9"
unfolding receive strncase_eq strn_eq to_lower is_space
leftover_answered = refl
