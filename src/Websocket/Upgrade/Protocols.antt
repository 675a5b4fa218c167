-- ===== src/Websocket/Upgrade/Protocols.antt =====
-- The sub-protocol of the upgrade in websocket.c against a description of the header line: the pieces
-- between commas, less the spaces before them.
use cjet.Base.{
  ℕ, ◌+◌, Bool, true, false, Option, none, some, List, [], ◌∷◌, ◌++◌, append-nil, append_assoc, ◌≡◌,
  ◌≢◌, refl, sym, ap, ◌∙◌, length, length-append, ap₂, arith, if◌then◌else◌, ◌&&◌, ◌||◌, ◌==◌,
  Bool-cases, inl, inr,
}
use cjet.Base.Str.{Str, str_eq, strn_eq}
use cjet.Websocket.Parameters.{byte_at, is_space}
use cjet.Websocket.Upgrade.{
  Upgrade, HeaderField, HttpParser, for_each_piece, fill_requested_sub_protocol,
  check_websocket_protocol, take_value, on_header_value, check_http_version, send_upgrade_response,
  on_headers_complete,
}

-- The first piece of a header value, and the others
unfoldable pub split_commas : Str → Str × List Str
split_commas [] = ([], [])
split_commas (c ∷ v) =
    let (p, ps) = split_commas v in if c == b',' then ([], p ∷ ps) else (c ∷ p, ps)

unfoldable pub drop_spaces : Str → Str
drop_spaces [] = []
drop_spaces (c ∷ v) = let rest = drop_spaces v in if is_space c then rest else c ∷ v

unfoldable pub any_named : Str → List Str → Bool
unfolding drop_spaces
any_named name [] = false
any_named name (p ∷ ps) = str_eq name (drop_spaces p) || any_named name ps

-- A header value asks for a protocol.
unfoldable pub asks_for : Str → Str → Bool
unfolding split_commas any_named
asks_for name v = let (p, ps) = split_commas v in str_eq name (drop_spaces p) || any_named name ps

-- `memcmp` on as many bytes as both have
strn_eq-whole :
    (name piece rest : Str)
    → (length name == length piece && strn_eq (length piece) name (piece ++ rest))
      ≡ str_eq name piece
unfolding strn_eq str_eq
strn_eq-whole [] [] rest = refl
strn_eq-whole [] (d ∷ piece) rest = ground arith
strn_eq-whole (c ∷ name) [] rest = ground arith
strn_eq-whole (c ∷ name) (d ∷ piece) rest = ground (arith, strn_eq-whole name piece rest)

marked : Bool → Upgrade → Upgrade
marked b s = record s { found = s.found || b }

fill-eq :
    (name : Str) (s : Upgrade) (piece rest : Str)
    → s.name ≡ some name
    → fill_requested_sub_protocol s (piece ++ rest) (length piece) ≡ marked (str_eq name piece) s
unfolding fill_requested_sub_protocol marked
fill-eq name s piece rest own = ground (arith, strn_eq-whole name piece rest, own)

-- Inside a piece of which `piece` was read
asks_on : Str → Str → Str → Bool
unfolding split_commas any_named
asks_on name piece v = let (p, ps) = split_commas v in str_eq name (piece ++ p) || any_named name ps

marked_not : (s : Upgrade) → marked false s ≡ s
unfolding marked
marked_not s = ground arith

marked_again : (a b : Bool) (s : Upgrade) → marked a (marked b s) ≡ marked (b || a) s
unfolding marked
marked_again a b s = ground arith

-- The description, one byte at a time: between the pieces, then within one
asks_for-end : (name : Str) → name ≢ [] → asks_for name [] ≡ false
unfolding asks_for split_commas any_named drop_spaces str_eq
asks_for-end [] named = absurd (named refl)
asks_for-end (c ∷ name) named = refl

asks_for-skip :
    (name v : Str) (c : ℕ)
    → name ≢ []
    → (is_space c || c == b',') ≡ true
    → asks_for name (c ∷ v) ≡ asks_for name v
unfolding asks_for split_commas any_named drop_spaces
asks_for-skip name v c named is = ground (arith, asks_for-end name named, is)

asks_for-start :
    (name v : Str) (c : ℕ)
    → (is_space c || c == b',') ≡ false
    → asks_for name (c ∷ v) ≡ asks_on name (c ∷ []) v
unfolding asks_for asks_on split_commas any_named drop_spaces
asks_for-start name v c is = ground (arith, is)

asks_on-end : (name piece : Str) → asks_on name piece [] ≡ str_eq name piece
unfolding asks_on split_commas any_named
asks_on-end name piece = ground (arith, append-nil piece)

asks_on-comma :
    (name piece v : Str) (c : ℕ)
    → (c == b',') ≡ true
    → asks_on name piece (c ∷ v) ≡ (str_eq name piece || asks_for name v)
unfolding asks_on asks_for split_commas any_named
asks_on-comma name piece v c is = ground (arith, append-nil piece, is)

asks_on-longer :
    (name piece v : Str) (c : ℕ)
    → (c == b',') ≡ false
    → asks_on name piece (c ∷ v) ≡ asks_on name (piece ++ (c ∷ [])) v
unfolding asks_on split_commas any_named
asks_on-longer name piece v c is =
    ground (arith, append_assoc piece (c ∷ []) ((split_commas v).0), is)

-- The piece that is read, in the memory
abbrev held : Option Str → Str → Option (Str × ℕ)
held none rest = none
held (some piece) rest = some (piece ++ rest, length piece)

held-longer :
    (piece rest : Str) (c : ℕ)
    → some (piece ++ (c ∷ rest), length piece + 1) ≡ held (some (piece ++ (c ∷ []))) rest
held-longer piece rest c =
    let q : length (piece ++ (c ∷ [])) ≡ length piece + 1 =
      omega (arith, length-append piece (c ∷ [])) in
    sym (ap some (ap₂ (λ a n. (a, n)) (append_assoc piece (c ∷ []) rest) q))

abbrev asks : Str → Option Str → Str → Bool
asks name none v = asks_for name v
asks name (some piece) v = asks_on name piece v

pieces_marked :
    (name behind v : Str) (mode : Option Str) (s : Upgrade)
    → s.name ≡ some name
    → name ≢ []
    → for_each_piece fill_requested_sub_protocol
        (length v)
        (v ++ behind)
        (held mode (v ++ behind))
        s
      ≡ marked (asks name mode v) s
unfolding for_each_piece byte_at marked
pieces_marked name behind [] none s own named =
    sym (ap (λ b. marked b s) (asks_for-end name named) ∙ marked_not s)
pieces_marked name behind [] (some piece) s own named =
    fill-eq name s piece behind own ∙ ap (λ b. marked b s) (sym (asks_on-end name piece))
pieces_marked name behind (c ∷ v) none s own named =
    let between = pieces_marked name behind v none s own named in
    let within = pieces_marked name behind v (some (c ∷ [])) s own named in
    elim (Bool-cases (is_space c || c == b',')) [
      | inl skipped ↦ ground (arith, between, skipped, asks_for-skip name v c named skipped)
      | inr started ↦ ground (arith, within, started, asks_for-start name v c started)
    ]
pieces_marked name behind (c ∷ v) (some piece) s own named =
    let rest = v ++ behind in
    let next = marked (str_eq name piece) s in
    let ended = pieces_marked name behind v none next own named in
    let filled : fill_requested_sub_protocol s (piece ++ (c ∷ rest)) (length piece) ≡ next =
      fill-eq name s piece (c ∷ rest) own in
    let ended : for_each_piece fill_requested_sub_protocol (length v) rest none
          (fill_requested_sub_protocol s (piece ++ (c ∷ rest)) (length piece))
        ≡ marked (asks_for name v) next =
      ap (λ t. for_each_piece fill_requested_sub_protocol (length v) rest none t) filled
      ∙ pieces_marked name behind v none next own named in
    let longer : for_each_piece fill_requested_sub_protocol (length v) rest
          (some (piece ++ (c ∷ rest), length piece + 1)) s
        ≡ marked (asks_on name (piece ++ (c ∷ [])) v) s =
      ap (λ m. for_each_piece fill_requested_sub_protocol (length v) rest m s)
        (held-longer piece rest c)
      ∙ pieces_marked name behind v (some (piece ++ (c ∷ []))) s own named in
    elim (Bool-cases (c == b',')) [
      | inl comma ↦ ground (arith, ended, comma, asks_on-comma name piece v c comma)
      | inr other ↦ ground (arith, longer, other, asks_on-longer name piece v c other)
    ]

-- The value of a line Sec-WebSocket-Protocol, with any memory behind it, ends the line, is noted,
-- and finds the sub-protocol of the server, if it has one that is not empty, exactly when one of
-- its pieces between commas is this name after its spaces; nothing else changes.
pub on_header_value-protocol :
    (name : Str) (s : Upgrade) (v behind : Str)
    → s.name ≡ some name
    → name ≢ []
    → s.current_header_field ≡ HeaderField.sec_websocket_protocol
    → on_header_value s (v ++ behind) (length v) ≡ (
      true,
      record s {
        current_header_field = HeaderField.unknown;
        protocol_requested = true;
        found = s.found || asks_for name v;
      },
    )
unfolding on_header_value take_value check_websocket_protocol marked
on_header_value-protocol name s v behind own named is =
    let asked =
      pieces_marked name behind v none (record s { protocol_requested = true }) own named in
    let end_line : Bool × Upgrade → Bool × Upgrade =
      λ r. (r.0, record r.1 { current_header_field = HeaderField.unknown }) in
    ap (λ f. end_line (take_value f s (v ++ behind) (length v))) is
    ∙ ap (λ t. end_line (true, t)) asked

-- After a line Sec-WebSocket-Protocol on a websocket that found nothing, a request is refused,
-- with nothing written, unless it has HTTP 1.1 or newer, the method GET, the upgrade flag, and a
-- piece that is the name of the server's sub-protocol; then it gets the answer.
pub on_headers_complete-protocol :
    (sha1 : List ℕ → List ℕ) (writev : List Str → Bool) (p : HttpParser) (s s' : Upgrade)
    (name v behind : Str)
    → s.name ≡ some name
    → name ≢ []
    → s.current_header_field ≡ HeaderField.sec_websocket_protocol
    → s.found ≡ false
    → on_header_value s (v ++ behind) (length v) ≡ (true, s')
    → on_headers_complete sha1 writev p s' ≡ (
        if check_http_version p && p.is_get && p.upgrade && asks_for name v
        then send_upgrade_response sha1 writev s'
        else (false, []))
unfolding on_headers_complete send_upgrade_response
on_headers_complete-protocol sha1 writev p s s' name v behind own named is new made =
    let noted = on_header_value-protocol name s v behind own named is in
    let found : s'.found ≡ asks_for name v =
      ground (arith, new, ap (λ r. r.1.found) (sym made ∙ noted)) in
    let requested : s'.protocol_requested ≡ true =
      ap (λ r. r.1.protocol_requested) (sym made ∙ noted) in
    ground (arith, found, requested)
