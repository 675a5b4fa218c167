-- ===== src/SocketPeer.antt =====
-- src/socket_peer.c: a message of a peer is its length in four bytes, the highest first, and its text.
-- SocketPeer/Framing is about whole messages on a connection.
use cjet.Base.{
  ℕ, ◌+◌, ◌-◌, ◌^◌, Bool, true, false, Option, none, some, List, [], ◌∷◌, ◌++◌, length, take, drop,
  ltb, ◌==◌, if◌then◌else◌,
}
use cjet.Base.Endian.{big_endian, big_endian_bytes}
use cjet.Json.{Json, Platform}
use cjet.State.{World}
use cjet.Peer.{free_peer_resources}
use cjet.Rpc.{parse_message}
pub mod Framing

-- The callback of the last `read_exactly`, with the number of bytes that it asked for
pub data Pending : Type 0 where
  length_next : Pending
  message_next : ℕ → Pending

-- `memory` is what lies behind each text to come in the read buffer, up to the next zero byte: the text is
-- not terminated, and cJSON reads on.
pub record Connection : Type 0 where
  pub pending : Pending
  pub world : World
  pub memory : List (List ℕ)

unfoldable pub next_behind : List (List ℕ) → List ℕ
next_behind [] = []
next_behind (behind ∷ memory) = behind

unfoldable pub wanted : Connection → ℕ
wanted c = elim c.pending [ length_next ↦ 4 | message_next n ↦ n ]

-- `send_message`: the two vectors that go to `writev`
unfoldable pub send_message_vectors : List ℕ → Option (List (List ℕ))
send_message_vectors rendered =
    if ltb (2 ^ 32 - 1) (length rendered)
    then none
    else some (big_endian_bytes 4 (length rendered) ∷ rendered ∷ [])

-- The peer at an address, with `cJSON_ParseWithOpts`, which takes the bytes up to the next zero byte and
-- gives the tree and the number of bytes that it used, and CONFIG_CHECK_JSON_LENGTH
module _ (g : Platform) (info : Json) (parse_with_opts : List ℕ → Option (Json × ℕ))
    (check_length : Bool) (p : ℕ) where
  -- `parse_message` on the bytes of a text and those behind it
  unfoldable pub parse_text : List ℕ → List ℕ → World → Bool × World
  parse_text text behind w =
      parse_message g info (parse_with_opts (text ++ behind)) check_length (length text) p w

  -- `free_jet_peer`
  unfoldable pub free_jet_peer : World → World
  free_jet_peer w = free_peer_resources g w p

  -- `read_msg_length` and `read_msg`, by what is pending: whether the callback returns BS_OK
  unfoldable pub on_read : Connection → List ℕ → Bool × Connection
  unfolding parse_text free_jet_peer next_behind
  on_read c [] = (false, record c { world = free_jet_peer c.world })
  on_read c (b ∷ buf) = elim c.pending [
    | length_next ↦
        let message_length = big_endian 0 (b ∷ buf) in
        if message_length == 0
        then (true, c)
        else (true, record c { pending = message_next message_length })
    | message_next n ↦
        let (ok, w) = parse_text (b ∷ buf) (next_behind c.memory) c.world in
        if ok
        then (true, record { pending = length_next; world = w; memory = drop 1 c.memory })
        else (false, record c { world = free_jet_peer w })
  ]
