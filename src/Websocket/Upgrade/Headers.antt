-- ===== src/Websocket/Upgrade/Headers.antt =====
-- What holds of the upgrade of websocket.c after any header lines.
use cjet.Base.{
  ℕ, zero, suc, ◌+◌, Bool, true, false, Option, none, some, List, [], ◌∷◌, ◌≡◌, refl, drop, arith,
  if◌then◌else◌, not, ◌&&◌, ◌==◌,
}
use cjet.Base.Str.{Str}
use cjet.Websocket.Parameters.{byte_at, is_space}
use cjet.Websocket.Extensions.{ExtensionCompression, levels}
use cjet.Websocket.Extensions.Fits.{Fits, fill_requested_extension-Fits, levels-Fits}
use cjet.Websocket.Upgrade.{
  Upgrade, HeaderField, websocket_init, on_header_field, take_value, on_header_value,
  for_each_piece, fill_requested_sub_protocol, check_websocket_protocol, check_websocket_extensions,
  save_websocket_key,
}

-- A call of the HTTP parser: with the name of a header line, or with its value
pub data HeaderEvent : Type 0 where
  field value : Str → ℕ → HeaderEvent

-- The calls of the parser, which stops at the first error
unfoldable pub receive : List HeaderEvent → Upgrade → Bool × Upgrade
unfolding on_header_field on_header_value
receive [] s = (true, s)
receive (field at size ∷ events) s = receive events (on_header_field s at size)
receive (value at size ∷ events) s =
    let (ret, s') = on_header_value s at size in
    elim ret [ true ↦ receive events s' | false ↦ (false, s') ]

-- What each piece keeps, the loop keeps.
module _ (fill : Upgrade → Str → ℕ → Upgrade) (P : Upgrade → Type 0)
    (kept : (s : Upgrade) (start : Str) (len : ℕ) → P s → P (fill s start len)) where
  for_each_piece-kept :
      (size : ℕ) (at : Str) (piece : Option (Str × ℕ)) (s : Upgrade)
      → P s
      → P (for_each_piece fill size at piece s)
  unfolding for_each_piece
  for_each_piece-kept zero at none s held = held
  for_each_piece-kept zero at (some (start, len)) s held = kept s start len held
  for_each_piece-kept (suc size) at none s held =
      let within = for_each_piece-kept size (drop 1 at) (some (at, 1)) s held in
      let between = for_each_piece-kept size (drop 1 at) none s held in
      elim (not (is_space (byte_at 0 at)) && not (byte_at 0 at == b','))
        as (λ b. P (
          if b
          then for_each_piece fill size (drop 1 at) (some (at, 1)) s
          else for_each_piece fill size (drop 1 at) none s)) [ true ↦ within | false ↦ between ]
  for_each_piece-kept (suc size) at (some (start, len)) s held =
      let next = fill s start len in
      let ended = for_each_piece-kept size (drop 1 at) none next (kept s start len held) in
      let longer = for_each_piece-kept size (drop 1 at) (some (start, len + 1)) s held in
      elim (byte_at 0 at == b',')
        as (λ b. P (
          if b
          then for_each_piece fill size (drop 1 at) none next
          else for_each_piece fill size (drop 1 at) (some (start, len + 1)) s)) [
            | true ↦ ended
            | false ↦ longer
          ]

abbrev CompressionFits : Upgrade → Type 0
CompressionFits s = Fits s.extension_compression

fill_requested_sub_protocol-Fits :
    (s : Upgrade) (start : Str) (len : ℕ)
    → CompressionFits s
    → CompressionFits (fill_requested_sub_protocol s start len)
unfolding fill_requested_sub_protocol
fill_requested_sub_protocol-Fits s start len fits =
    let same : (fill_requested_sub_protocol s start len).extension_compression
        ≡ s.extension_compression =
      ground arith in
    rw same fits

take_value-Fits :
    (f : HeaderField) (s : Upgrade) (at : Str) (size : ℕ)
    → CompressionFits s
    → CompressionFits (take_value f s at size).1
unfolding take_value check_websocket_protocol check_websocket_extensions
take_value-Fits HeaderField.unknown s at size fits = fits
take_value-Fits HeaderField.sec_websocket_key s at size fits =
    elim (save_websocket_key at size)
      as (λ r.
        CompressionFits
          (elim r as (λ _. Bool × Upgrade) [
            | none ↦ (false, s)
            | some key ↦ (true, record s { sec_web_socket_key = key })
          ]).1) [ none ↦ fits | some key ↦ fits ]
take_value-Fits HeaderField.sec_websocket_version s at size fits = fits
take_value-Fits HeaderField.sec_websocket_protocol s at size fits =
    for_each_piece-kept fill_requested_sub_protocol CompressionFits fill_requested_sub_protocol-Fits
      size at none (record s { protocol_requested = true }) fits
take_value-Fits HeaderField.sec_websocket_extensions s at size fits =
    for_each_piece-kept _ CompressionFits
      (λ s' start len held. fill_requested_extension-Fits s'.extension_compression start len held)
      size at none s fits

on_header_field-Fits :
    (s : Upgrade) (at : Str) (size : ℕ)
    → CompressionFits s
    → CompressionFits (on_header_field s at size)
unfolding on_header_field
on_header_field-Fits s at size fits =
    let same : (on_header_field s at size).extension_compression ≡ s.extension_compression =
      ground arith in
    rw same fits

receive_kept :
    (events : List HeaderEvent) (s : Upgrade)
    → CompressionFits s
    → CompressionFits (receive events s).1
unfolding receive on_header_value
receive_kept [] s fits = fits
receive_kept (field at size ∷ events) s fits =
    receive_kept events (on_header_field s at size) (on_header_field-Fits s at size fits)
receive_kept (value at size ∷ events) s fits =
    let (ret, s') = on_header_value s at size in
    let held : CompressionFits s' = take_value-Fits s.current_header_field s at size fits in
    let rest = receive_kept events s' held in
    elim ret
      as (λ b.
        CompressionFits
          (elim b as (λ _. Bool × Upgrade) [ true ↦ receive events s' | false ↦ (false, s') ]).1) [
            | true ↦ rest
            | false ↦ held
          ]

websocket_init-Fits :
    (sub_protocol : Option Str) (level : ℕ) (s : Upgrade) (r : Option ExtensionCompression)
    → levels level ≡ r
    → websocket_init sub_protocol level ≡ some s
    → CompressionFits s
unfolding websocket_init
websocket_init-Fits sub_protocol level s none at new = absurd (ground arith)
websocket_init-Fits sub_protocol level s (some e) at new =
    let same : s.extension_compression ≡ e = ground arith in rw same (levels-Fits level e at)

-- From a new websocket of any level and after any header lines: the answer about the extension has
-- at most 128 bytes, so that it fits its buffer of 129 with the zero behind it, and the window
-- bits are from 8 to 15 for the client and from 9 to 15 for the server.
pub receive-Fits :
    (sub_protocol : Option Str) (level : ℕ) (s : Upgrade) (events : List HeaderEvent)
    → websocket_init sub_protocol level ≡ some s
    → Fits ((receive events s).1.extension_compression)
receive-Fits sub_protocol level s events new =
    receive_kept events s (websocket_init-Fits sub_protocol level s (levels level) refl new)
