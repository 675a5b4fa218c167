-- ===== src/Live/RouteAddresses.antt =====
-- The list of peers before and after each request of router.c and authenticate.c.
use cjet.Base.{ℕ, Option, none, some, ◌≡◌, refl, List, arith, if◌then◌else◌}
use cjet.Base.Str.{Str, codes}
use cjet.Json.{Json, Platform}
use cjet.State.{Element, Io, World, RoutingRequest, attempt}
use cjet.Request.{Checked, ok, reply}
use cjet.Router.{
  Kind, alloc_routing_request, request_timeout_handler, set_routing_table, route_remove,
  routing_table_of, setup_routing_information, create_routed_message, answer_request, answer_id,
  route_get, handle_routing_response,
}
use cjet.Router.SetOrCall.{
  send_routed, route_request, start_routing, routed_value, perform_set_or_call, set_or_call,
  check_set_or_call,
}
use cjet.Authenticate.{
  set_groups_of, perform_authentication, check_authentication, handle_authentication,
}
use cjet.Live.Addresses.{addrs, addrs-update_peer}

module _ (g : Platform) where
  addrs-send_routed :
      (w : World) (request : Json) (e : Element) (message : Json)
      (c : Checked (List RoutingRequest) × Io)
      → addrs (send_routed g w request e message c).1.peers ≡ addrs w.peers
  unfolding send_routed set_routing_table
  addrs-send_routed w request e message (reply response, io) = refl
  addrs-send_routed w request e message (ok table, io) =
      ground (arith, addrs-update_peer e.peer (set_routing_table table) w.peers (λ p. refl))

  addrs-route_request :
      (w : World) (what : Kind) (request params : Json) (e : Element) (r : RoutingRequest)
      (c : Checked (Option Json))
      → addrs (route_request g w what request params e r c).1.peers ≡ addrs w.peers
  unfolding route_request
  addrs-route_request w what request params e r (reply response) = refl
  addrs-route_request w what request params e r (ok value) = ground (
    arith,
    addrs-send_routed w request e (create_routed_message e.path what value r.id) (
        setup_routing_information g e request (g.get_object_item params (codes "timeout")) r
          (routing_table_of w.peers e.peer) (attempt w.io).1),
  )

  addrs-start_routing :
      (w : World) (what : Kind) (request params : Json) (e : Element)
      (c : Option RoutingRequest × Io)
      → addrs (start_routing g w what request params e c).1.peers ≡ addrs w.peers
  unfolding start_routing
  addrs-start_routing w what request params e (none, io) = refl
  addrs-start_routing w what request params e (some r, io) =
      addrs-route_request _ what request params e r (routed_value g what request params)

  addrs-perform_set_or_call :
      (w : World) (p : ℕ) (what : Kind) (request : Json)
      (c : Checked (Json × Element × Option Json))
      → addrs (perform_set_or_call g w p what request c).1.peers ≡ addrs w.peers
  unfolding perform_set_or_call
  addrs-perform_set_or_call w p what request (reply response) = refl
  addrs-perform_set_or_call w p what request (ok (params, e, id)) =
      addrs-start_routing w what request params e (alloc_routing_request g w.uuid p e.peer id w.io)

  pub addrs-set_or_call :
      (w : World) (p : ℕ) (what : Kind) (request : Json)
      → addrs (set_or_call g w p what request).1.peers ≡ addrs w.peers
  unfolding set_or_call
  addrs-set_or_call w p what request =
      addrs-perform_set_or_call w p what request (check_set_or_call g w p what request)

  addrs-answer_request :
      (w : World) (p : ℕ) (id : Str) (response : Json) (result_type : Str)
      (r : Option RoutingRequest)
      → addrs (answer_request g w p id response result_type r).1.peers ≡ addrs w.peers
  unfolding answer_request
  addrs-answer_request w p id response result_type none = refl
  addrs-answer_request w p id response result_type (some r) =
      addrs-update_peer p (λ q. record q { routing_table = route_remove id q.routing_table })
        w.peers (λ q. refl)

  addrs-answer_id :
      (w : World) (p : ℕ) (response : Json) (result_type : Str) (id : Option Json)
      → addrs (answer_id g w p response result_type id).1.peers ≡ addrs w.peers
  unfolding answer_id
  addrs-answer_id w p response result_type none = refl
  addrs-answer_id w p response result_type (some Json.null) = refl
  addrs-answer_id w p response result_type (some (Json.boolean b)) = refl
  addrs-answer_id w p response result_type (some (Json.number a b)) = refl
  addrs-answer_id w p response result_type (some (Json.string id)) =
      addrs-answer_request w p id response result_type (route_get id (routing_table_of w.peers p))
  addrs-answer_id w p response result_type (some (Json.array xs)) = refl
  addrs-answer_id w p response result_type (some (Json.object fs)) = refl

  pub addrs-handle_routing_response :
      (w : World) (p : ℕ) (json_rpc response : Json) (result_type : Str)
      → addrs (handle_routing_response g w p json_rpc response result_type).1.peers ≡ addrs w.peers
  unfolding handle_routing_response
  addrs-handle_routing_response w p json_rpc response result_type =
      addrs-answer_id w p response result_type (g.get_object_item json_rpc (codes "id"))

  pub addrs-request_timeout_handler :
      (r : RoutingRequest) (w : World) → addrs (request_timeout_handler g r w).peers ≡ addrs w.peers
  unfolding request_timeout_handler
  addrs-request_timeout_handler r w = addrs-update_peer r.owner_peer _ w.peers (λ q. refl)

  addrs-perform_authentication :
      (w : World) (p : ℕ) (request : Json) (c : Checked (Str × Json))
      → addrs (perform_authentication g w p request c).1.peers ≡ addrs w.peers
  unfolding perform_authentication
  addrs-perform_authentication w p request (reply r) = refl
  addrs-perform_authentication w p request (ok (user_name, auth)) =
      addrs-update_peer p
        (set_groups_of g w.all_groups auth (if (attempt w.io).0 then some user_name else none))
        w.peers (λ q. unfold set_groups_of in refl)

  pub addrs-handle_authentication :
      (w : World) (p : ℕ) (request : Json)
      → addrs (handle_authentication g w p request).1.peers ≡ addrs w.peers
  unfolding handle_authentication
  addrs-handle_authentication w p request =
      addrs-perform_authentication w p request (check_authentication g w p request)
