-- ===== src/Router/Answers.antt =====
-- `handle_routing_response` of router.c, and the tables that it reads.
use cjet.Base.{ℕ, true, none, some, ◌≡◌, refl, List, [], ◌∷◌, ◌++◌, append-nil, arith}
use cjet.Base.Str.{Str, codes, str_eq_refl}
use cjet.Json.{Json, Platform}
use cjet.Response.{create_result_response}
use cjet.State.{Peer, Io, World, RoutingRequest, attempt, send_message, find_peer, update_peer}
use cjet.Router.{
  route_put, route_get, route_remove, routing_table_of, send_response_to, forward_response,
  answer_request, answer_id, handle_routing_response,
}

pub route_get-route_put :
    (r : RoutingRequest) (t : List RoutingRequest) → route_get r.id (route_put r t) ≡ some r
unfolding route_get route_put
route_get-route_put r [] = ground (arith, str_eq_refl r.id)
route_get-route_put r (x ∷ t) = ground (arith, str_eq_refl r.id, route_get-route_put r t)

pub route_get-route_remove :
    (id : Str) (t : List RoutingRequest) → route_get id (route_remove id t) ≡ none
unfolding route_get route_remove
route_get-route_remove id [] = refl
route_get-route_remove id (x ∷ t) = ground (arith, route_get-route_remove id t)

routing_table_of-update_peer :
    (a : ℕ) (f : Peer → Peer) (ps : List Peer)
    → ((p : Peer) → (f p).addr ≡ p.addr)
    → routing_table_of (update_peer a f ps) a
      ≡ elim (find_peer a ps) [ some p ↦ (f p).routing_table | none ↦ [] ]
unfolding routing_table_of find_peer update_peer
routing_table_of-update_peer a f [] same = refl
routing_table_of-update_peer a f (p ∷ ps) same =
    ground (arith, same p, routing_table_of-update_peer a f ps same)

routing_table_of-drop_request :
    (a : ℕ) (id : Str) (ps : List Peer)
    → routing_table_of
        (update_peer a (λ q. record q { routing_table = route_remove id q.routing_table }) ps)
        a
      ≡ route_remove id (routing_table_of ps a)
unfolding routing_table_of route_remove
routing_table_of-drop_request a id ps = ground (
  arith,
  routing_table_of-update_peer a (λ q. record q { routing_table = route_remove id q.routing_table })
      ps (λ q. refl),
)

-- The message for the peer that asked
abbrev pub answer : Platform → RoutingRequest → Json → Json → Str → List (ℕ × Json)
answer g r id response result_type = elim (create_result_response g id response result_type) [
  | some m ↦ (r.requesting_peer, m) ∷ []
  | none ↦ []
]

module _ (g : Platform) where
  send_response_to-sent :
      (r : RoutingRequest) (id response : Json) (result_type : Str) (io : Io)
      → io.outcomes ≡ []
      → (send_response_to r.requesting_peer
          (create_result_response g id response result_type)
          io).sent
        ≡ io.sent ++ answer g r id response result_type
  unfolding send_response_to send_message attempt
  send_response_to-sent r id response result_type io clear = ground (arith, append-nil io.sent)

  -- With no failures ahead, the answer of an owner to a request in its routing table reaches the
  -- peer that asked, under the id of its own request, and the entry is gone.
  pub handle_routing_response-answers :
      (w : World) (p : ℕ) (json_rpc response id : Json) (result_type : Str) (r : RoutingRequest)
      (t : List RoutingRequest)
      → w.io.outcomes ≡ []
      → routing_table_of w.peers p ≡ route_put r t
      → r.origin_request_id ≡ some id
      → g.get_object_item json_rpc (codes "id") ≡ some (Json.string r.id)
      → ((handle_routing_response g w p json_rpc response result_type).0 ≡ true)
        × ((handle_routing_response g w p json_rpc response result_type).1.io.sent
            ≡ w.io.sent ++ answer g r id response result_type)
        × (route_get r.id (
              routing_table_of
                (handle_routing_response g w p json_rpc response result_type).1.peers
                p)
            ≡ none)
  unfolding handle_routing_response answer_id answer_request forward_response attempt
  handle_routing_response-answers w p json_rpc response id result_type r t clear table origin
        named =
      ground (
        arith,
        route_get-route_put r t,
        routing_table_of-drop_request p r.id w.peers,
        route_get-route_remove r.id (routing_table_of w.peers p),
        send_response_to-sent r id response result_type w.io clear,
      )
