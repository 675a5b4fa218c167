-- ===== src/Router/SetOrCall.antt =====
-- `set_or_call` of element.c: a request to set a state or to call a method is checked, and passed on to the
-- owner of the element.
use cjet.Base.{ℕ, ◌+◌, ◌%◌, ◌^◌, Bool, false, not, Option, none, some, List, is_some, if◌then◌else◌}
use cjet.Base.Str.{Str, codes}
use cjet.Json.{Json, Platform}
use cjet.Groups.{AllGroups, has_access}
use cjet.State.{
  Element, Peer, Io, World, RoutingRequest, attempt, send_message, find_peer, update_peer,
  element_table_get,
}
use cjet.Request.{
  element_or, Checked, ok, reply, ◌>>=◌, ◌>>◌, require, invalid_params, internal_error,
  invalid_params_for, internal_error_for, get_params, get_path_from_params,
}
use cjet.Router.{
  Kind, create_routed_message, routing_table_of, set_routing_table, alloc_routing_request,
  setup_routing_information,
}

-- A state is set, a method is called.
unfoldable pub is_kind : Kind → Element → Bool
is_kind Kind.state e = is_some e.value
is_kind Kind.method e = not (is_some e.value)

-- `has_access` with the groups for the kind of request, for the peer that asks
unfoldable pub is_authorized : AllGroups → Kind → Element → Option Peer → Bool
is_authorized all what e none = false
is_authorized all Kind.state e (some q) = has_access all e.set_groups q.set_groups
is_authorized all Kind.method e (some q) = has_access all e.call_groups q.call_groups

module _ (g : Platform) where
  -- The id of the request, if it has one: a string or a number
  unfoldable pub origin_id : Json → Str → Option Json → Checked (Option Json)
  origin_id request path none = ok none
  origin_id request path (some (Json.string s)) = ok (some (Json.string s))
  origin_id request path (some (Json.number a b)) = ok (some (Json.number a b))
  origin_id request path (some _) =
      reply (invalid_params_for g request (codes "request id is neither string nor number") path)

  -- The checks of `set_or_call` up to `alloc_routing_request`: params, element and request id
  unfoldable pub check_set_or_call :
      World → ℕ → Kind → Json → Checked (Json × Element × Option Json)
  unfolding is_kind is_authorized
  check_set_or_call w p what request = do
    params ← get_params g request
    path ← get_path_from_params g request params
    e ←
        element_or (element_table_get w path)
          (invalid_params_for g request (codes "not exists") path)
    require (not e.fetch_only) (invalid_params_for g request (codes "fetchOnly") path)
    require (is_kind what e)
        (invalid_params_for g request (codes "set/call on element not possible") path)
    require (is_authorized w.all_groups what e (find_peer p w.peers))
        (invalid_params_for g request (codes "request not authorized") path)
    id ← origin_id request path (g.get_object_item request (codes "id"))
    ok (params, e, id)

  -- The `value` that is passed on: a state must have one, the `args` of a method may be missing.
  unfoldable pub routed_value : Kind → Json → Json → Checked (Option Json)
  routed_value Kind.state request params = elim (g.get_object_item params (codes "value")) [
    | some v ↦ ok (some v)
    | none ↦ reply (invalid_params g request (codes "no value found"))
  ]
  routed_value Kind.method request params = ok (g.get_object_item params (codes "args"))

  -- The end of `set_or_call`: printing the message takes one outcome. When it fails the request stands in
  -- the table of the owner all the same.
  unfoldable pub send_routed :
      World → Json → Element → Json → Checked (List RoutingRequest) × Io → Option Json × World
  send_routed w request e message (reply response, io) = (response, record w { io = io })
  send_routed w request e message (ok table, io) =
      let (ok1, io1) = attempt io in
      let (ok2, io2) = send_message e.peer message io1 in
      let ps = update_peer e.peer (set_routing_table table) w.peers in
      if ok1
      then (
        if ok2 then none else internal_error g request (codes "could not send routing information"),
        record w { peers = ps; io = io2 },
      )
      else (
        internal_error g request (codes "could not render message"),
        record w { peers = ps; io = io1 },
      )

  -- `set_or_call` once the routing request exists. Building the message takes one outcome.
  unfoldable pub route_request :
      World
      → Kind
      → Json
      → Json
      → Element
      → RoutingRequest
      → Checked (Option Json)
      → Option Json × World
  unfolding send_routed
  route_request w what request params e r (reply response) = (response, w)
  route_request w what request params e r (ok value) =
      let (ok1, io1) = attempt w.io in
      if ok1
      then send_routed w request e (create_routed_message e.path what value r.id) (
          setup_routing_information g e request (g.get_object_item params (codes "timeout")) r
            (routing_table_of w.peers e.peer) io1)
      else (
        internal_error g request (codes "could not create routed JSON object"),
        record w { io = io1 },
      )

  -- `set_or_call` from `alloc_routing_request` on; `uuid` is an `unsigned int`
  unfoldable pub start_routing :
      World → Kind → Json → Json → Element → Option RoutingRequest × Io → Option Json × World
  unfolding route_request
  start_routing w what request params e (none, io) = (
    internal_error_for g request (codes "could not create routing request") e.path,
    record w { io = io },
  )
  start_routing w what request params e (some r, io) =
      route_request (record w { uuid = (w.uuid + 1) % 2 ^ 32; io = io }) what request params e r
        (routed_value what request params)

  unfoldable pub perform_set_or_call :
      World → ℕ → Kind → Json → Checked (Json × Element × Option Json) → Option Json × World
  unfolding start_routing
  perform_set_or_call w p what request (reply response) = (response, w)
  perform_set_or_call w p what request (ok (params, e, id)) =
      start_routing w what request params e (alloc_routing_request g w.uuid p e.peer id w.io)

  -- `set_or_call`
  unfoldable pub set_or_call : World → ℕ → Kind → Json → Option Json × World
  unfolding perform_set_or_call
  set_or_call w p what request =
      perform_set_or_call w p what request (check_set_or_call w p what request)
