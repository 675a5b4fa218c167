-- ===== src/Live/Routes.antt =====
-- What router.c, authenticate.c and config.c write to peers, as seen from the fetcher tables.
use cjet.Base.{ℕ, Option, none, some, ◌≡◌, refl, List, arith, if◌then◌else◌}
use cjet.Base.Str.{Str, codes}
use cjet.Json.{Json, Platform}
use cjet.State.{Element, Peer, Io, World, RoutingRequest, attempt, update_peer}
use cjet.Request.{Checked, ok, reply}
use cjet.Router.{
  Kind, alloc_routing_request, request_timeout_handler, set_routing_table, route_remove,
  routing_table_of, setup_routing_information, create_routed_message, answer_request, answer_id,
  route_get, handle_routing_response,
}
use cjet.Router.SetOrCall.{
  send_routed, route_request, start_routing, routed_value, perform_set_or_call, set_or_call,
  check_set_or_call,
}
use cjet.Peer.{set_peer_name}
use cjet.Authenticate.{
  set_groups_of, perform_authentication, check_authentication, handle_authentication,
}
use cjet.Live.Peers.{SlotsLive, update_peer-SlotsLive}

-- A write that leaves the elements and the fetches alone.
pub other_write-SlotsLive :
    (a : ℕ) (f : Peer → Peer) (ps : List Peer)
    → ((p : Peer) → (f p).fetch_list ≡ p.fetch_list)
    → ((p : Peer) → (f p).element_list ≡ p.element_list)
    → SlotsLive ps
    → SlotsLive (update_peer a f ps)
other_write-SlotsLive a f ps keep same h =
    update_peer-SlotsLive a f ps keep (λ p k. rw (same p) k) h

module _ (g : Platform) where
  send_routed-SlotsLive :
      (w : World) (request : Json) (e : Element) (message : Json)
      (c : Checked (List RoutingRequest) × Io)
      → SlotsLive w.peers
      → SlotsLive (send_routed g w request e message c).1.peers
  unfolding send_routed set_routing_table
  send_routed-SlotsLive w request e message (reply response, io) h = h
  send_routed-SlotsLive w request e message (ok table, io) h = ground (
    arith,
    other_write-SlotsLive e.peer (set_routing_table table) w.peers (λ p. refl) (λ p. refl) h,
  )

  route_request-SlotsLive :
      (w : World) (what : Kind) (request params : Json) (e : Element) (r : RoutingRequest)
      (c : Checked (Option Json))
      → SlotsLive w.peers
      → SlotsLive (route_request g w what request params e r c).1.peers
  unfolding route_request
  route_request-SlotsLive w what request params e r (reply response) h = h
  route_request-SlotsLive w what request params e r (ok value) h = ground (
    arith,
    send_routed-SlotsLive w request e (create_routed_message e.path what value r.id)
        (setup_routing_information g e request (g.get_object_item params (codes "timeout")) r
          (routing_table_of w.peers e.peer) (attempt w.io).1)
        h,
  )

  start_routing-SlotsLive :
      (w : World) (what : Kind) (request params : Json) (e : Element)
      (c : Option RoutingRequest × Io)
      → SlotsLive w.peers
      → SlotsLive (start_routing g w what request params e c).1.peers
  unfolding start_routing
  start_routing-SlotsLive w what request params e (none, io) h = h
  start_routing-SlotsLive w what request params e (some r, io) h =
      route_request-SlotsLive _ what request params e r (routed_value g what request params) h

  perform_set_or_call-SlotsLive :
      (w : World) (p : ℕ) (what : Kind) (request : Json)
      (c : Checked (Json × Element × Option Json))
      → SlotsLive w.peers
      → SlotsLive (perform_set_or_call g w p what request c).1.peers
  unfolding perform_set_or_call
  perform_set_or_call-SlotsLive w p what request (reply response) h = h
  perform_set_or_call-SlotsLive w p what request (ok (params, e, id)) h =
      start_routing-SlotsLive w what request params e
        (alloc_routing_request g w.uuid p e.peer id w.io) h

  pub set_or_call-SlotsLive :
      (w : World) (p : ℕ) (what : Kind) (request : Json)
      → SlotsLive w.peers
      → SlotsLive (set_or_call g w p what request).1.peers
  unfolding set_or_call
  set_or_call-SlotsLive w p what request h =
      perform_set_or_call-SlotsLive w p what request (check_set_or_call g w p what request) h

  answer_request-SlotsLive :
      (w : World) (p : ℕ) (id : Str) (response : Json) (result_type : Str)
      (r : Option RoutingRequest)
      → SlotsLive w.peers
      → SlotsLive (answer_request g w p id response result_type r).1.peers
  unfolding answer_request
  answer_request-SlotsLive w p id response result_type none h = h
  answer_request-SlotsLive w p id response result_type (some r) h =
      other_write-SlotsLive p (λ q. record q { routing_table = route_remove id q.routing_table })
        w.peers (λ q. refl) (λ q. refl) h

  answer_id-SlotsLive :
      (w : World) (p : ℕ) (response : Json) (result_type : Str) (id : Option Json)
      → SlotsLive w.peers
      → SlotsLive (answer_id g w p response result_type id).1.peers
  unfolding answer_id
  answer_id-SlotsLive w p response result_type none h = h
  answer_id-SlotsLive w p response result_type (some Json.null) h = h
  answer_id-SlotsLive w p response result_type (some (Json.boolean b)) h = h
  answer_id-SlotsLive w p response result_type (some (Json.number a b)) h = h
  answer_id-SlotsLive w p response result_type (some (Json.string id)) h =
      answer_request-SlotsLive w p id response result_type
        (route_get id (routing_table_of w.peers p)) h
  answer_id-SlotsLive w p response result_type (some (Json.array xs)) h = h
  answer_id-SlotsLive w p response result_type (some (Json.object fs)) h = h

  pub handle_routing_response-SlotsLive :
      (w : World) (p : ℕ) (json_rpc response : Json) (result_type : Str)
      → SlotsLive w.peers
      → SlotsLive (handle_routing_response g w p json_rpc response result_type).1.peers
  unfolding handle_routing_response
  handle_routing_response-SlotsLive w p json_rpc response result_type h =
      answer_id-SlotsLive w p response result_type (g.get_object_item json_rpc (codes "id")) h

  pub request_timeout_handler-SlotsLive :
      (r : RoutingRequest) (w : World)
      → SlotsLive w.peers
      → SlotsLive (request_timeout_handler g r w).peers
  unfolding request_timeout_handler
  request_timeout_handler-SlotsLive r w h =
      other_write-SlotsLive r.owner_peer _ w.peers (λ q. refl) (λ q. refl) h

  perform_authentication-SlotsLive :
      (w : World) (p : ℕ) (request : Json) (c : Checked (Str × Json))
      → SlotsLive w.peers
      → SlotsLive (perform_authentication g w p request c).1.peers
  unfolding perform_authentication
  perform_authentication-SlotsLive w p request (reply r) h = h
  perform_authentication-SlotsLive w p request (ok (user_name, auth)) h =
      other_write-SlotsLive p
        (set_groups_of g w.all_groups auth (if (attempt w.io).0 then some user_name else none))
        w.peers (λ q. unfold set_groups_of in refl) (λ q. unfold set_groups_of in refl) h

  pub handle_authentication-SlotsLive :
      (w : World) (p : ℕ) (request : Json)
      → SlotsLive w.peers
      → SlotsLive (handle_authentication g w p request).1.peers
  unfolding handle_authentication
  handle_authentication-SlotsLive w p request h =
      perform_authentication-SlotsLive w p request (check_authentication g w p request) h

pub set_peer_name-SlotsLive :
    (p : ℕ) (name : Str) (w : World) → SlotsLive w.peers → SlotsLive (set_peer_name p name w).peers
unfolding set_peer_name
set_peer_name-SlotsLive p name w h = other_write-SlotsLive p _ w.peers (λ q. refl) (λ q. refl) h
