-- ===== src/Websocket/Extensions.antt =====
-- The negotiation of permessage-deflate in websocket.c.
use cjet.Base.{
  ℕ, zero, suc, ◌+◌, ◌-◌, ◌%◌, ◌^◌, Bool, true, false, not, ◌&&◌, ◌||◌, Option, none, some, List,
  [], ◌∷◌, ◌++◌, length, drop, ltb, leb, ◌==◌, if◌then◌else◌,
}
use cjet.Base.Str.{Str, codes, strn_eq}
use cjet.Websocket.Parameters.{Parameter, byte_at, split_parameters}
pub mod Offers
pub mod Fits

-- `extension_compression` of `struct websocket`, less the state of zlib; `response` are the bytes that
-- are written to the buffer of 129.
pub record ExtensionCompression : Type 0 where
  pub name : Str
  pub compression_level : ℕ
  pub client_max_window_bits : ℕ
  pub client_no_context_takeover : Bool
  pub server_max_window_bits : ℕ
  pub server_no_context_takeover : Bool
  pub response : Str
  pub accepted : Bool

-- The levels of `websocket_init`, none for an illegal one
unfoldable pub levels : ℕ → Option ExtensionCompression
levels level =
    let at : ℕ → ℕ → Bool → ExtensionCompression = λ client server alone. record {
      name = codes "permessage-deflate";
      compression_level = level;
      client_max_window_bits = client;
      client_no_context_takeover = alone;
      server_max_window_bits = server;
      server_no_context_takeover = alone;
      response = [];
      accepted = false;
    } in
    if level == 1
    then some (at 8 9 true)
    else if level == 2
    then some (at 12 12 false)
    else if level == 0 || level == 3
    then some (at 15 15 false)
    else none

-- The decimal digits of a number of window bits
unfoldable pub window_digits : ℕ → Str
window_digits value =
    if ltb value 10 then (value % 10 + b'0') ∷ [] else b'1' ∷ (value % 10 + b'0') ∷ []

-- `write_to_response`
unfoldable pub write_to_response : Str → Str → ℕ → Str
unfolding window_digits
write_to_response response param_name value =
    response
    ++ (b';' ∷ b' ' ∷ (param_name ++ (if ltb 0 value then b'=' ∷ window_digits value else [])))

-- The state of the loop over the parameters
pub record Negotiation : Type 0 where
  pub extension : ExtensionCompression
  pub client_offered_c_max_window : Bool
  pub client_offered_s_max_window : Bool
  pub client_offered_c_no_takeover : Bool
  pub client_offered_s_no_takeover : Bool

-- `tmp = *value_start; tmp -= '0'` on an `unsigned int`
abbrev digit : ℕ → ℕ
digit c = (c + (2 ^ 32 - b'0')) % 2 ^ 32

-- The number behind `=`, from `smallest` to 15, none where the code returns
unfoldable pub window_bits : ℕ → ℕ → Parameter → Option ℕ
window_bits smallest name_length p =
    let value = drop name_length p.text in
    let one = digit (byte_at 1 value) in
    let ten = digit (byte_at 2 value) in
    if not (byte_at 0 value == b'=')
    then none
    else if p.size == name_length + 2
    then if ltb one smallest || ltb 9 one then none else some one
    else if not (byte_at 1 value == b'1')
    then none
    else if ltb 5 ten
    then none
    else some (10 + ten)

abbrev client_window : Str
client_window = codes "client_max_window_bits"

abbrev server_window : Str
server_window = codes "server_max_window_bits"

abbrev client_takeover : Str
client_takeover = codes "client_no_context_takeover"

abbrev server_takeover : Str
server_takeover = codes "server_no_context_takeover"

-- The smaller one of the own limit and the offered one
unfoldable pub limit : ℕ → ℕ → ℕ
limit bits tmp = if ltb tmp bits then tmp else bits

unfoldable pub offer_client_window : ℕ → Negotiation → Negotiation
unfolding write_to_response
offer_client_window bits n =
    let e = n.extension in
    record n {
      extension = record e {
        client_max_window_bits = bits;
        response = write_to_response e.response client_window bits;
      };
      client_offered_c_max_window = true;
    }

unfoldable pub offer_server_window : ℕ → Negotiation → Negotiation
unfolding write_to_response
offer_server_window bits n =
    let e = n.extension in
    record n {
      extension = record e {
        server_max_window_bits = bits;
        response = write_to_response e.response server_window bits;
      };
      client_offered_s_max_window = true;
    }

-- Each parameter of an offer: none where the code returns
unfoldable pub take_client_window : Parameter → Negotiation → Option Negotiation
unfolding window_bits limit offer_client_window
take_client_window p n =
    let own = n.extension.client_max_window_bits in
    if n.client_offered_c_max_window
    then none
    else if ltb (22 + 3) p.size
    then none
    else if ltb 22 p.size
    then elim (window_bits 8 22 p) [
      | none ↦ none
      | some tmp ↦ some (offer_client_window (limit own tmp) n)
    ]
    else some (offer_client_window own n)

unfoldable pub take_server_window : Parameter → Negotiation → Option Negotiation
unfolding window_bits limit offer_server_window
take_server_window p n =
    if n.client_offered_s_max_window
    then none
    else if ltb (22 + 3) p.size
    then none
    else elim (window_bits 9 22 p) [
      | none ↦ none
      | some tmp ↦ some (offer_server_window (limit n.extension.server_max_window_bits tmp) n)
    ]

unfoldable pub take_client_takeover : Negotiation → Option Negotiation
unfolding write_to_response
take_client_takeover n =
    let e = n.extension in
    if n.client_offered_c_no_takeover
    then none
    else some (record n {
      extension = record e {
        client_no_context_takeover = true;
        response = write_to_response e.response client_takeover 0;
      };
      client_offered_c_no_takeover = true;
    })

unfoldable pub take_server_takeover : Negotiation → Option Negotiation
unfolding write_to_response
take_server_takeover n =
    let e = n.extension in
    if n.client_offered_s_no_takeover
    then none
    else some (record n {
      extension = record e {
        server_no_context_takeover = true;
        response = write_to_response e.response server_takeover 0;
      };
      client_offered_s_no_takeover = true;
    })

-- One turn of the loop over the parameters
unfoldable pub take_parameter : Parameter → Negotiation → Option Negotiation
unfolding take_client_window take_server_window take_client_takeover take_server_takeover
take_parameter p n =
    if ltb p.size 22
    then none
    else if strn_eq 22 client_window p.text
    then take_client_window p n
    else if strn_eq 22 server_window p.text
    then take_server_window p n
    else if ltb p.size 26
    then none
    else if strn_eq 26 client_takeover p.text
    then take_client_takeover n
    else if strn_eq 26 server_takeover p.text
    then take_server_takeover n
    else none

-- The loop: whether it came to its end, and what it left
unfoldable pub take_parameters : List Parameter → Negotiation → Bool × Negotiation
unfolding take_parameter
take_parameters [] n = (true, n)
take_parameters (p ∷ ps) n = elim (take_parameter p n) [
  | none ↦ (false, n)
  | some n' ↦ take_parameters ps n'
]

-- What the server adds to the answer that the client did not offer
unfoldable pub complete_response : Negotiation → ExtensionCompression
unfolding write_to_response
complete_response n =
    let e = n.extension in
    let client = if n.client_offered_c_max_window then e.client_max_window_bits else 15 in
    let r1 =
      if not n.client_offered_s_max_window && ltb e.server_max_window_bits 15
      then write_to_response e.response server_window e.server_max_window_bits
      else e.response in
    let r2 =
      if not n.client_offered_c_no_takeover && e.client_no_context_takeover
      then write_to_response r1 client_takeover 0
      else r1 in
    let r3 =
      if not n.client_offered_s_no_takeover && e.server_no_context_takeover
      then write_to_response r2 server_takeover 0
      else r2 in
    record e { client_max_window_bits = client; response = r3; accepted = true }

-- The part of `fill_requested_extension` that follows the comparison of the name
unfoldable pub negotiate : ExtensionCompression → List Parameter → ExtensionCompression
unfolding take_parameters complete_response
negotiate e ps =
    let n : Negotiation = record {
      extension = record e { response = e.name };
      client_offered_c_max_window = false;
      client_offered_s_max_window = false;
      client_offered_c_no_takeover = false;
      client_offered_s_no_takeover = false;
    } in
    let (ended, n') = take_parameters ps n in if ended then complete_response n' else n'.extension

-- `fill_requested_extension`
unfoldable pub fill_requested_extension : ExtensionCompression → Str → ℕ → ExtensionCompression
unfolding split_parameters negotiate
fill_requested_extension e start size =
    if e.accepted || e.compression_level == 0
    then e
    else elim (split_parameters size 0 start (record { text = start; size = 0 }) 0) [
      | none ↦ e
      | some [] ↦ e
      | some (p ∷ ps) ↦
          if length e.name == p.size && strn_eq p.size e.name p.text then negotiate e ps else e
    ]
