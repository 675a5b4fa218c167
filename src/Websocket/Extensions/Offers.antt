-- ===== src/Websocket/Extensions/Offers.antt =====
-- The parameters of an offer in websocket.c, one at a time: each that is taken has its room in the answer.
use cjet.Base.{
  ℕ, ◌+◌, ◌≤◌, false, Option, none, some, List, [], ◌∷◌, ◌++◌, length, length-append, ltb, ◌≡◌,
  refl, arith, inl, inr, ◌⊎◌, if◌then◌else◌,
}
use cjet.Base.Str.{Str, codes}
use cjet.Websocket.Parameters.{Parameter}
use cjet.Websocket.Extensions.{
  Negotiation, window_digits, write_to_response, window_bits, limit, take_client_window,
  take_server_window, take_client_takeover, take_server_takeover, take_parameter,
  offer_client_window, offer_server_window,
}

-- Window bits: from 8 to 15 for the client, from 9 for the server
abbrev pub AreBits : ℕ → ℕ → Type 0
AreBits client server = (8 ≤ client) × (client ≤ 15) × (9 ≤ server) × (server ≤ 15)

-- A parameter with a number, or one without
pub write_to_response-size :
    (response name : Str) (value : ℕ)
    → length (write_to_response response name value) ≤ length response + length name + 5
unfolding write_to_response window_digits
write_to_response-size response name value =
    let digits : List ℕ = if ltb 0 value then b'=' ∷ window_digits value else [] in
    let few : length digits ≤ 3 = ground arith in
    omega (
      arith,
      length-append response (b';' ∷ b' ' ∷ (name ++ digits)),
      length-append name digits,
      few,
    )

pub write_to_response-flag :
    (response name : Str)
    → length (write_to_response response name 0) ≡ length response + length name + 2
unfolding write_to_response
write_to_response-flag response name =
    omega (arith, length-append response (b';' ∷ b' ' ∷ (name ++ [])), length-append name [])

-- The room of the parameters that may still come
abbrev pub room : Negotiation → ℕ
room n =
    (if n.client_offered_c_max_window then 0 else 27)
    + (if n.client_offered_s_max_window then 0 else 27)
    + (if n.client_offered_c_no_takeover then 0 else 28)
    + (if n.client_offered_s_no_takeover then 0 else 28)

-- What holds between two parameters
abbrev pub IsOpen : Negotiation → Type 0
IsOpen n =
    (length n.extension.response + room n ≤ 128)
    × (length n.extension.name ≡ 18)
    × AreBits n.extension.client_max_window_bits n.extension.server_max_window_bits

window_bits-range :
    (smallest size : ℕ) (p : Parameter) (bits : ℕ)
    → 8 ≤ smallest
    → smallest ≤ 9
    → window_bits smallest size p ≡ some bits
    → (smallest ≤ bits) × (bits ≤ 15)
unfolding window_bits
window_bits-range smallest size p bits low high h = ground arith

-- A window that is offered for the first time
offer_client_window-IsOpen :
    (bits : ℕ) (n : Negotiation)
    → IsOpen n
    → n.client_offered_c_max_window ≡ false
    → 8 ≤ bits
    → bits ≤ 15
    → IsOpen (offer_client_window bits n)
unfolding offer_client_window
offer_client_window-IsOpen bits n held first low high =
    ground
      (arith, write_to_response-size n.extension.response (codes "client_max_window_bits") bits)

offer_server_window-IsOpen :
    (bits : ℕ) (n : Negotiation)
    → IsOpen n
    → n.client_offered_s_max_window ≡ false
    → 9 ≤ bits
    → bits ≤ 15
    → IsOpen (offer_server_window bits n)
unfolding offer_server_window
offer_server_window-IsOpen bits n held first low high =
    ground
      (arith, write_to_response-size n.extension.response (codes "server_max_window_bits") bits)

-- The bits that are agreed on
abbrev agreed : ℕ → Option ℕ → ℕ
agreed own none = own
agreed own (some tmp) = limit own tmp

agreed-range :
    (least size : ℕ) (p : Parameter) (own : ℕ)
    → (8 ≤ least) × (least ≤ 9)
    → (least ≤ own) × (own ≤ 15)
    → (r : Option ℕ) → window_bits least size p ≡ r
    → (least ≤ agreed own r) × (agreed own r ≤ 15)
unfolding limit
agreed-range least size p own bound range none is = range
agreed-range least size p own bound range (some tmp) is =
    ground (arith, window_bits-range least size p tmp bound.0 bound.1 is)

client_offers :
    (p : Parameter) (n n' : Negotiation) (r : Option ℕ)
    → window_bits 8 22 p ≡ r
    → take_client_window p n ≡ some n'
    → (n.client_offered_c_max_window ≡ false)
      × ((n' ≡ offer_client_window n.extension.client_max_window_bits n)
          ⊎ (n' ≡ offer_client_window (agreed n.extension.client_max_window_bits r) n))
unfolding take_client_window
client_offers p n n' none is taken = ground (arith, is, taken)
client_offers p n n' (some tmp) is taken = ground (arith, is, taken)

take_client_window-IsOpen :
    (p : Parameter) (n n' : Negotiation) → IsOpen n → take_client_window p n ≡ some n' → IsOpen n'
take_client_window-IsOpen p n n' held taken =
    let r = window_bits 8 22 p in
    let own = n.extension.client_max_window_bits in
    let (first, made) = client_offers p n n' r refl taken in
    let offered : (bits : ℕ)
        → (8 ≤ bits) × (bits ≤ 15)
        → n' ≡ offer_client_window bits n
        → IsOpen n' =
      λ bits range is. rw is (offer_client_window-IsOpen bits n held first range.0 range.1) in
    let range = agreed-range 8 22 p own (omega arith, omega arith) (ground (arith, held)) r refl in
    elim made [
      | inl plain ↦ offered own (ground (arith, held)) plain
      | inr numbered ↦ offered (agreed own r) range numbered
    ]

server_offers :
    (p : Parameter) (n n' : Negotiation) (r : Option ℕ)
    → window_bits 9 22 p ≡ r
    → take_server_window p n ≡ some n'
    → (n.client_offered_s_max_window ≡ false)
      × (n' ≡ offer_server_window (agreed n.extension.server_max_window_bits r) n)
unfolding take_server_window
server_offers p n n' none is taken = ground (arith, is, taken)
server_offers p n n' (some tmp) is taken = ground (arith, is, taken)

take_server_window-IsOpen :
    (p : Parameter) (n n' : Negotiation) → IsOpen n → take_server_window p n ≡ some n' → IsOpen n'
take_server_window-IsOpen p n n' held taken =
    let r = window_bits 9 22 p in
    let own = n.extension.server_max_window_bits in
    let (first, made) = server_offers p n n' r refl taken in
    let offered : (bits : ℕ)
        → (9 ≤ bits) × (bits ≤ 15)
        → n' ≡ offer_server_window bits n
        → IsOpen n' =
      λ bits range is. rw is (offer_server_window-IsOpen bits n held first range.0 range.1) in
    let range = agreed-range 9 22 p own (omega arith, omega arith) (ground (arith, held)) r refl in
    offered (agreed own r) range made

take_client_takeover-IsOpen :
    (n n' : Negotiation) → IsOpen n → take_client_takeover n ≡ some n' → IsOpen n'
unfolding take_client_takeover
take_client_takeover-IsOpen n n' held taken =
    ground (arith, write_to_response-flag n.extension.response (codes "client_no_context_takeover"))

take_server_takeover-IsOpen :
    (n n' : Negotiation) → IsOpen n → take_server_takeover n ≡ some n' → IsOpen n'
unfolding take_server_takeover
take_server_takeover-IsOpen n n' held taken =
    ground (arith, write_to_response-flag n.extension.response (codes "server_no_context_takeover"))

-- Each parameter is one of the four.
taken_by :
    (p : Parameter) (n : Negotiation) (r : Option Negotiation)
    → take_parameter p n ≡ r
    → (r ≡ none)
      ⊎ (take_client_window p n ≡ r)
      ⊎ (take_server_window p n ≡ r)
      ⊎ (take_client_takeover n ≡ r)
      ⊎ (take_server_takeover n ≡ r)
unfolding take_parameter
taken_by p n r is = ground arith

pub take_parameter-IsOpen :
    (p : Parameter) (n n' : Negotiation) → IsOpen n → take_parameter p n ≡ some n' → IsOpen n'
take_parameter-IsOpen p n n' held taken = elim (taken_by p n (some n') taken) [
  | inl never ↦ absurd (ground arith)
  | inr (inl client) ↦ take_client_window-IsOpen p n n' held client
  | inr (inr (inl server)) ↦ take_server_window-IsOpen p n n' held server
  | inr (inr (inr (inl client))) ↦ take_client_takeover-IsOpen n n' held client
  | inr (inr (inr (inr server))) ↦ take_server_takeover-IsOpen n n' held server
]
