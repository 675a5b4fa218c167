-- ===== src/Router.antt =====
-- router.c: a set or call request is passed on to the owner of the element under an id of its own, and
-- the answer, a timeout or the end of a peer goes back to the one who asked. A routing table is the
-- list of the requests that it holds, by id.
pub mod SetOrCall
pub mod Granted
pub mod Answers
pub mod Ids
use cjet.Base.{
  ℕ, zero, suc, ◌+◌, ◌-◌, ◌*◌, ◌/◌, ◌%◌, ◌^◌, Bool, true, false, not, ◌&&◌, ◌||◌, Option, none,
  some, List, [], ◌∷◌, ◌++◌, length, take, leb, ltb, ◌==◌, is_some, if◌then◌else◌,
}
use cjet.Base.Str.{Str, codes, str_eq}
use cjet.Json.{Json, Fields, Platform}
use cjet.Groups.{AllGroups, has_access}
use cjet.Response.{
  ErrorCode, create_error_response, create_error_response_from_request, create_result_response,
}
use cjet.State.{
  Fetch, Element, Peer, Io, World, RoutingRequest, attempt, send_message, find_peer, update_peer,
  element_table_get,
}
use cjet.Request.{
  element_or, Checked, ok, reply, ◌>>=◌, ◌>>◌, require, item_or, invalid_params, internal_error,
  invalid_params_for, internal_error_for, get_params, get_path_from_params, get_timeout_in_nsec,
  nonzero_timeout,
}

-- `enum type`
pub data Kind : Type 0 where
  state method : Kind

-- `%x`: hexadecimal digits, lower case, with no leading zero. Eight digits are enough for 32 bits.
unfoldable pub hex_digit : ℕ → ℕ
hex_digit d = if ltb d 10 then b'0' + d else b'a' + (d - 10)

unfoldable pub hex_digits : ℕ → ℕ → Str
hex_digits zero n = []
hex_digits (suc fuel) n =
    let rest = hex_digits fuel (n / 16) in
    if ltb n 16 then hex_digit n ∷ [] else rest ++ (hex_digit (n % 16) ∷ [])

-- `origin_request_id->valuestring` as `%s` prints it: a number node has a null pointer there
unfoldable pub id_text : Json → Str
id_text (Json.string s) = s
id_text _ = codes "(null)"

-- What `send_message` of a routed message carries for a value
unfoldable pub routed_params : Kind → Json → Json
routed_params Kind.method value = value
routed_params Kind.state value = Json.object (Fields.field (codes "value") value Fields.end)

-- `create_routed_message`, once its allocations have succeeded
unfoldable pub create_routed_message : Str → Kind → Option Json → Str → Json
unfolding routed_params
create_routed_message path what value id =
    let value_copy : Json = elim value [ some v ↦ v | none ↦ Json.object Fields.end ] in
    Json.object (
      Fields.field (codes "id") (Json.string id) (
        Fields.field (codes "method") (Json.string path)
          (Fields.field (codes "params") (routed_params what value_copy) Fields.end)))

-- `HASHTABLE_PUT` of a request under its id
unfoldable pub route_put : RoutingRequest → List RoutingRequest → List RoutingRequest
route_put r [] = r ∷ []
route_put r (x ∷ xs) = if str_eq x.id r.id then r ∷ xs else x ∷ route_put r xs

unfoldable pub route_get : Str → List RoutingRequest → Option RoutingRequest
route_get id [] = none
route_get id (x ∷ xs) = if str_eq x.id id then some x else route_get id xs

-- `HASHTABLE_REMOVE`
unfoldable pub route_remove : Str → List RoutingRequest → List RoutingRequest
route_remove id [] = []
route_remove id (x ∷ xs) =
    let rest = route_remove id xs in if str_eq x.id id then rest else x ∷ rest

unfoldable pub routing_table_of : List Peer → ℕ → List RoutingRequest
routing_table_of ps a = elim (find_peer a ps) [ some q ↦ q.routing_table | none ↦ [] ]

unfoldable pub set_routing_table : List RoutingRequest → Peer → Peer
set_routing_table t p = record p { routing_table = t }

-- A response to a requesting peer, if there is one (`format_and_send_response`)
unfoldable pub send_response_to : ℕ → Option Json → Io → Io
send_response_to p none io = io
send_response_to p (some r) io =
    let (ok1, io1) = attempt io in if ok1 then (send_message p r io1).1 else io1

module _ (g : Platform) where
  -- The text that `fill_routed_request_id` prints: "%s_%x_%p" or "%x_%p". The buffer was sized without
  -- the terminating zero, so the last character is cut off.
  unfoldable pub routed_request_id : ℕ → ℕ → Option Json → Str
  unfolding hex_digits
  routed_request_id uuid address origin_request_id =
      let tail = hex_digits 8 uuid ++ (b'_' ∷ g.format_pointer address) in
      let text : Str = elim origin_request_id [
        | none ↦ tail
        | some id ↦ id_text id ++ (b'_' ∷ tail)
      ] in
      take (length text - 1) text

  -- `alloc_routing_request`: the request, the next `uuid` (an `unsigned int`). The request and the copy
  -- of the id are allocated.
  unfoldable pub alloc_routing_request : ℕ → ℕ → ℕ → Option Json → Io → Option RoutingRequest × Io
  alloc_routing_request uuid requesting_peer owner_peer origin_request_id io =
      let (ok1, io1) = attempt io in
      let (ok2, io2) = (if is_some origin_request_id then attempt io1 else (true, io1)) in
      let r : RoutingRequest = record {
        id = routed_request_id uuid requesting_peer origin_request_id;
        requesting_peer = requesting_peer;
        owner_peer = owner_peer;
        origin_request_id = origin_request_id;
      } in
      if not ok1 then (none, io1) else if not ok2 then (none, io2) else (some r, io2)

  -- `request_timeout_handler`, when the timer of `r` has expired
  unfoldable pub request_timeout_handler : RoutingRequest → World → World
  request_timeout_handler r w = record w {
    peers =
        update_peer r.owner_peer
          (λ p. record p { routing_table = route_remove r.id p.routing_table }) w.peers;
    io = elim r.origin_request_id [
      | none ↦ w.io
      | some id ↦
          send_response_to r.requesting_peer
            (create_error_response g id ErrorCode.internal_error (codes "reason")
              (codes "timeout for routed request"))
            w.io
    ];
  }

  -- `setup_routing_information`: the table of the owner with the request in it, or the response. The
  -- timer, the place in the table and the start of the timer take an outcome each; a request whose timer
  -- does not start is taken out again.
  unfoldable pub setup_routing_information :
      Element
      → Json
      → Option Json
      → RoutingRequest
      → List RoutingRequest
      → Io
      → Checked (List RoutingRequest) × Io
  setup_routing_information e request timeout r table io =
      let (ok1, io1) = attempt io in
      let (ok2, io2) = attempt io1 in
      let (ok3, io3) = attempt io2 in
      elim (get_timeout_in_nsec g request timeout e.timeout_nsec >>= nonzero_timeout g) [
        | reply response ↦ (reply response, io)
        | ok _ ↦
            if not ok1
            then (
              reply (internal_error g request (codes "could not init timer for routing request")),
              io1,
            )
            else if not ok2
            then (reply (internal_error g request (codes "routing table full")), io2)
            else if not ok3
            then (
              reply (internal_error g request (codes "could not start timer for routing request")),
              io3,
            )
            else (ok (route_put r table), io3)
      ]

  -- The part of `handle_routing_response` for a request that was found: the timer is stopped, and the
  -- answer goes to the requesting peer under its own id. 0 is `true`.
  unfoldable pub forward_response : RoutingRequest → Json → Str → Io → Bool × Io
  forward_response r response result_type io =
      let io1 = (attempt io).1 in
      elim r.origin_request_id [
        | none ↦ (true, io1)
        | some id ↦
            (let (ok2, io2) = attempt io1 in
              if ok2
              then (
                true,
                send_response_to r.requesting_peer
                    (create_result_response g id response result_type) io2,
              )
              else (false, io2))
      ]

  -- `handle_routing_response` once the id is known to be a string
  unfoldable pub answer_request :
      World → ℕ → Str → Json → Str → Option RoutingRequest → Bool × World
  answer_request w p id response result_type none = (true, w)
  answer_request w p id response result_type (some r) =
      let (ok1, io1) = forward_response r response result_type w.io in
      (
        ok1,
        record w {
          peers =
              update_peer p (λ q. record q { routing_table = route_remove id q.routing_table })
                w.peers;
          io = io1;
        },
      )

  -- The checks of the id in `handle_routing_response`
  unfoldable pub answer_id : World → ℕ → Json → Str → Option Json → Bool × World
  unfolding answer_request
  answer_id w p response result_type (some (Json.string id)) =
      answer_request w p id response result_type (route_get id (routing_table_of w.peers p))
  answer_id w p response result_type _ = (false, w)

  -- `handle_routing_response`, called for the peer at `p`
  unfoldable pub handle_routing_response : World → ℕ → Json → Json → Str → Bool × World
  unfolding answer_id
  handle_routing_response w p json_rpc response result_type =
      answer_id w p response result_type (g.get_object_item json_rpc (codes "id"))

  -- `clear_routing_entry`: the timer is stopped, and the requesting peer is told
  unfoldable pub clear_routing_entry : RoutingRequest → Io → Io
  clear_routing_entry r io =
      let io1 = (attempt io).1 in
      elim r.origin_request_id [
        | none ↦ io1
        | some id ↦
            send_response_to r.requesting_peer
              (create_error_response g id ErrorCode.internal_error (codes "reason")
                (codes "peer shuts down"))
              io1
      ]

  -- The loop of `remove_routing_info_from_peer`: every entry is removed and cleared.
  unfoldable pub clear_entries : List RoutingRequest → Io → Io
  clear_entries [] io = io
  clear_entries (r ∷ rs) io = clear_entries rs (clear_routing_entry r io)

  -- `remove_routing_info_from_peer`
  unfoldable pub remove_routing_info_from_peer : World → ℕ → World
  remove_routing_info_from_peer w p = record w {
    peers = update_peer p (set_routing_table []) w.peers;
    io = clear_entries (routing_table_of w.peers p) w.io;
  }

  -- The loop of `remove_peer_from_routing_table`: every entry is removed, and cleared if it was the
  -- removed peer that asked.
  unfoldable pub clear_entries_of : ℕ → List RoutingRequest → Io → Io
  clear_entries_of a [] io = io
  clear_entries_of a (r ∷ rs) io =
      clear_entries_of a rs (if r.requesting_peer == a then clear_routing_entry r io else io)

  -- `remove_peer_from_routing_table`
  unfoldable pub remove_peer_from_routing_table : ℕ → Peer → Io → Peer × Io
  remove_peer_from_routing_table a p io =
      (record p { routing_table = [] }, clear_entries_of a p.routing_table io)
