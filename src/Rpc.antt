-- ===== src/Rpc.antt =====
-- parse.c, config.c and info.c: what a peer sends is one JSON-RPC object or an array of them. A
-- message is taken as cJSON parsed it; the length check is on the number of bytes it used.
use cjet.Base.{ℕ, Bool, true, false, not, ◌&&◌, Option, none, some, ◌==◌, if◌then◌else◌}
use cjet.Base.Str.{Str, codes, str_eq}
use cjet.Json.{Json, Items, Fields, Platform}
use cjet.Response.{
  ErrorCode, create_error_response_from_request, create_success_response_from_request,
  create_result_response_from_request,
}
use cjet.State.{World, attempt, send_message}
use cjet.Request.{ok, reply, invalid_params, get_params}
use cjet.Fetch.Requests.{process_fetch, remove_fetch_from_peer, get_elements}
use cjet.Element.{change_state, add_element_to_peer, remove_element_from_peer}
use cjet.Router.{Kind, handle_routing_response}
use cjet.Router.SetOrCall.{set_or_call}
use cjet.Peer.{set_peer_name, free_peer_resources}
use cjet.Authenticate.{handle_authentication}
use cjet.Authenticate.Password.{handle_change_password}

-- `create_info`, for the name and version of the build
unfoldable pub create_info : Str → Str → Json
create_info name version = Json.object (
    Fields.field (codes "name") (Json.string name) (
      Fields.field (codes "version") (Json.string version) (
        Fields.field (codes "protocolVersion") (Json.string (codes "1.0.0")) (
          Fields.field (codes "features")
            (Json.object (
              Fields.field (codes "batches") (Json.boolean true) (
                Fields.field (codes "authentication") (Json.boolean true)
                  (Fields.field (codes "fetch") (Json.string (codes "full")) Fields.end))))
            Fields.end))))

-- The methods of `handle_method`.
pub data Method : Type 0 where
  change set call add remove fetch unfetch get config info authenticate passwd : Method

-- The chain of `strcmp` in `handle_method`
unfoldable pub find_method : Str → Option Method
find_method s =
    if str_eq s (codes "change")
    then some Method.change
    else if str_eq s (codes "set")
    then some Method.set
    else if str_eq s (codes "call")
    then some Method.call
    else if str_eq s (codes "add")
    then some Method.add
    else if str_eq s (codes "remove")
    then some Method.remove
    else if str_eq s (codes "fetch")
    then some Method.fetch
    else if str_eq s (codes "unfetch")
    then some Method.unfetch
    else if str_eq s (codes "get")
    then some Method.get
    else if str_eq s (codes "config")
    then some Method.config
    else if str_eq s (codes "info")
    then some Method.info
    else if str_eq s (codes "authenticate")
    then some Method.authenticate
    else if str_eq s (codes "passwd")
    then some Method.passwd
    else none

-- `info` is the object of `create_info` for this build.
module _ (g : Platform) (info : Json) where
  -- The `name` of `config_peer`
  unfoldable pub set_name : World → ℕ → Json → Option Json → Option Json × World
  set_name w p request none = (create_success_response_from_request g request, w)
  set_name w p request (some (Json.string name)) =
      (create_success_response_from_request g request, set_peer_name p name w)
  set_name w p request (some _) = (invalid_params g request (codes "name is not a string"), w)

  -- `config_peer`
  unfoldable pub config_peer : World → ℕ → Json → Option Json × World
  unfolding set_name
  config_peer w p request = elim (get_params g request) [
    | reply r ↦ (r, w)
    | ok params ↦ set_name w p request (g.get_object_item params (codes "name"))
  ]

  -- The request of a method that is known
  unfoldable pub run_method : World → ℕ → Json → Method → Option Json × World
  run_method w p request Method.change = change_state g w p request
  run_method w p request Method.set = set_or_call g w p Kind.state request
  run_method w p request Method.call = set_or_call g w p Kind.method request
  run_method w p request Method.add = add_element_to_peer g w p request
  run_method w p request Method.remove = remove_element_from_peer g w p request
  run_method w p request Method.fetch = process_fetch g w p request
  run_method w p request Method.unfetch = remove_fetch_from_peer g w p request
  run_method w p request Method.get = get_elements g w p request
  run_method w p request Method.config = config_peer w p request
  run_method w p request Method.info =
      (create_result_response_from_request g request info (codes "result"), w)
  run_method w p request Method.authenticate = handle_authentication g w p request
  run_method w p request Method.passwd = handle_change_password g w p request

  -- The end of `handle_method`, for a method of any name
  unfoldable pub run_found : World → ℕ → Json → Str → Option Method → Option Json × World
  unfolding run_method
  run_found w p request name (some m) = run_method w p request m
  run_found w p request name none = (
    create_error_response_from_request g request ErrorCode.method_not_found (codes "reason") name,
    w,
  )

  -- `handle_method`
  unfoldable pub handle_method : World → ℕ → Json → Str → Option Json × World
  unfolding run_found
  handle_method w p request name = run_found w p request name (find_method name)

  -- `send_response`: 0 is `true`. Printing takes one outcome.
  unfoldable pub send_response : Option Json → ℕ → World → Bool × World
  send_response none p w = (true, w)
  send_response (some response) p w =
      let (ok1, io1) = attempt w.io in
      let (ok2, io2) = send_message p response io1 in
      if ok1 then (ok2, record w { io = io2 }) else (false, record w { io = io1 })

  -- An answer to a routed request: its `result` and its `error`, if they are there
  unfoldable pub parse_answer : World → ℕ → Json → Option Json → Option Json → Bool × World
  parse_answer w p request (some result) error =
      handle_routing_response g w p request result (codes "result")
  parse_answer w p request none (some error) =
      handle_routing_response g w p request error (codes "error")
  parse_answer w p request none none =
      send_response
        (create_error_response_from_request g request ErrorCode.invalid_request (codes "reason")
          (codes "neither request nor response"))
        p w

  -- `parse_json_rpc` for what stands under "method"
  unfoldable pub parse_method : World → ℕ → Json → Option Json → Bool × World
  unfolding parse_answer
  parse_method w p request none =
      parse_answer w p request (g.get_object_item request (codes "result"))
        (g.get_object_item request (codes "error"))
  parse_method w p request (some (Json.string name)) =
      let (response, w1) = handle_method w p request name in send_response response p w1
  parse_method w p request (some _) =
      send_response
        (create_error_response_from_request g request ErrorCode.invalid_request (codes "reason")
          (codes "method is not a string"))
        p w

  -- `parse_json_rpc`
  unfoldable pub parse_json_rpc : World → ℕ → Json → Bool × World
  unfolding parse_method
  parse_json_rpc w p request = parse_method w p request (g.get_object_item request (codes "method"))

  -- The loop of `parse_json_array`
  unfoldable pub parse_json_array : World → ℕ → Items → Bool × World
  parse_json_array w p Items.nil = (true, w)
  parse_json_array w p (Items.cons (Json.object fs) items) =
      let (ok1, w1) = parse_json_rpc w p (Json.object fs) in
      elim ok1 [ true ↦ parse_json_array w1 p items | false ↦ (false, w1) ]
  parse_json_array w p (Items.cons _ items) = (false, w)

  -- The `switch` of `parse_message`
  unfoldable pub parse_root : World → ℕ → Json → Bool × World
  parse_root w p (Json.array items) = parse_json_array w p items
  parse_root w p (Json.object fs) = parse_json_rpc w p (Json.object fs)
  parse_root w p _ = (false, w)

  -- `parse_message`: what cJSON parsed with the number of bytes that it read, the flag
  -- CONFIG_CHECK_JSON_LENGTH and the length of the message
  unfoldable pub parse_message : Option (Json × ℕ) → Bool → ℕ → ℕ → World → Bool × World
  parse_message none check_length length p w = (false, w)
  parse_message (some (root, parsed_length)) check_length length p w =
      if check_length && not (parsed_length == length) then (false, w) else parse_root w p root

  -- `read_msg` of socket_peer.c for one whole message: a peer whose message fails is freed.
  unfoldable pub read_msg : Option (Json × ℕ) → Bool → ℕ → ℕ → World → World
  read_msg parsed check_length length p w =
      let (ok1, w1) = parse_message parsed check_length length p w in
      if length == 0
      then free_peer_resources g w p
      else if ok1
      then w1
      else free_peer_resources g w1 p
