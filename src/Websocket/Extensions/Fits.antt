-- ===== src/Websocket/Extensions/Fits.antt =====
-- The bounds of the negotiation of permessage-deflate in websocket.c: the answer fits its buffer of 129
-- bytes, and the window bits are numbers that RFC 7692 has.
use cjet.Base.{
  ℕ, ◌+◌, ◌≤◌, Bool, false, not, ◌&&◌, Option, none, some, List, [], ◌∷◌, length, ltb, ◌==◌, ◌≡◌,
  refl, arith, if◌then◌else◌,
}
use cjet.Base.Str.{Str, codes, strn_eq}
use cjet.Websocket.Parameters.{Parameter, split_parameters}
use cjet.Websocket.Extensions.{
  ExtensionCompression, Negotiation, levels, write_to_response, take_parameter, take_parameters,
  complete_response, negotiate, fill_requested_extension,
}
use cjet.Websocket.Extensions.Offers.{
  AreBits, IsOpen, write_to_response-size, write_to_response-flag, take_parameter-IsOpen,
}

-- What holds between two header values
abbrev pub Fits : ExtensionCompression → Type 0
Fits e =
    (length e.response ≤ 128)
    × (length e.name ≡ 18)
    × AreBits e.client_max_window_bits e.server_max_window_bits

take_parameters-IsOpen :
    (ps : List Parameter) (n : Negotiation) → IsOpen n → IsOpen (take_parameters ps n).1
unfolding take_parameters
take_parameters-IsOpen [] n held = held
take_parameters-IsOpen (p ∷ ps) n held =
    next (take_parameter p n) refl
      (λ n' is. take_parameters-IsOpen ps n' (take_parameter-IsOpen p n n' held is))
  where
    next :
        (r : Option Negotiation)
        → take_parameter p n ≡ r
        → ((n' : Negotiation) → take_parameter p n ≡ some n' → IsOpen (take_parameters ps n').1)
        → IsOpen
            (elim r as (λ _. Bool × Negotiation) [
              | none ↦ (false, n)
              | some n' ↦ take_parameters ps n'
            ]).1
    next none is rest = held
    next (some n') is rest = rest n' is

complete_response-Fits : (n : Negotiation) → IsOpen n → Fits (complete_response n)
unfolding complete_response
complete_response-Fits n held =
    let e = n.extension in
    let server = codes "server_max_window_bits" in
    let r1 : Str =
      if not n.client_offered_s_max_window && ltb e.server_max_window_bits 15
      then write_to_response e.response server e.server_max_window_bits
      else e.response in
    let r2 : Str =
      if not n.client_offered_c_no_takeover && e.client_no_context_takeover
      then write_to_response r1 (codes "client_no_context_takeover") 0
      else r1 in
    let s1 : length r1 ≤ length e.response + (if n.client_offered_s_max_window then 0 else 27) =
      ground (arith, write_to_response-size e.response server e.server_max_window_bits) in
    let s2 : length r2 ≤ length r1 + (if n.client_offered_c_no_takeover then 0 else 28) =
      ground (arith, write_to_response-flag r1 (codes "client_no_context_takeover")) in
    let s3 = write_to_response-flag r2 (codes "server_no_context_takeover") in
    (ground (arith, s1, s2, s3, held), held.1, ground (arith, held))

negotiate-Fits : (e : ExtensionCompression) (ps : List Parameter) → Fits e → Fits (negotiate e ps)
unfolding negotiate
negotiate-Fits e ps fits =
    let start : Negotiation = record {
      extension = record e { response = e.name };
      client_offered_c_max_window = false;
      client_offered_s_max_window = false;
      client_offered_c_no_takeover = false;
      client_offered_s_no_takeover = false;
    } in
    let held : IsOpen start = (omega (arith, fits), fits.1, fits.2) in
    let left = take_parameters-IsOpen ps start held in
    let completed = complete_response-Fits (take_parameters ps start).1 left in
    ground (arith, left, completed)

pub fill_requested_extension-Fits :
    (e : ExtensionCompression) (start : Str) (size : ℕ)
    → Fits e
    → Fits (fill_requested_extension e start size)
unfolding fill_requested_extension
fill_requested_extension-Fits e start size fits =
    ground (arith, chosen (split_parameters size 0 start (record { text = start; size = 0 }) 0))
  where
    chosen :
        (r : Option (List Parameter))
        → Fits (elim r as (λ _. ExtensionCompression) [
          | none ↦ e
          | some [] ↦ e
          | some (p ∷ ps) ↦
              if length e.name == p.size && strn_eq p.size e.name p.text then negotiate e ps else e
        ])
    chosen none = fits
    chosen (some []) = fits
    chosen (some (p ∷ ps)) = ground (arith, fits, negotiate-Fits e ps fits)

pub levels-Fits : (level : ℕ) (e : ExtensionCompression) → levels level ≡ some e → Fits e
unfolding levels
levels-Fits level e is = ground (arith, is)
