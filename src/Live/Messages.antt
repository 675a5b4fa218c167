-- ===== src/Live/Messages.antt =====
-- The messages of parse.c and socket_peer.c, as seen from the fetcher tables.
use cjet.Base.{ℕ, Bool, Option, none, some, ◌≡◌, refl, arith}
use cjet.Base.Str.{Str, codes}
use cjet.Json.{Json, Items, Platform}
use cjet.State.{World}
use cjet.Router.{handle_routing_response}
use cjet.Rpc.{
  Method, find_method, run_found, handle_method, send_response, parse_answer, parse_method,
  parse_json_rpc, parse_json_array, parse_root, parse_message, read_msg,
}
use cjet.Live.Peers.{SlotsLive}
use cjet.Live.Routes.{handle_routing_response-SlotsLive}
use cjet.Live.Departure.{free_peer_resources-SlotsLive}
use cjet.Live.RouteAddresses.{addrs-handle_routing_response}
use cjet.Live.Methods.{Sound, sound, run_method-Sound}

module _ (g : Platform) (info : Json) where
  handle_method-Sound :
      (w : World) (p : ℕ) (request : Json) (name : Str) (m : Option Method)
      → Sound p w.peers
      → Sound p (run_found g info w p request name m).1.peers
  unfolding run_found
  handle_method-Sound w p request name (some m) h = run_method-Sound g info w p request m h
  handle_method-Sound w p request name none h = h

  peers-send_response :
      (response : Option Json) (p : ℕ) (w : World)
      → (send_response g info response p w).1.peers ≡ w.peers
  unfolding send_response
  peers-send_response none p w = refl
  peers-send_response (some r) p w = ground arith

  send_response-Sound :
      (response : Option Json) (p : ℕ) (w : World)
      → Sound p w.peers
      → Sound p (send_response g info response p w).1.peers
  send_response-Sound response p w h = rw (peers-send_response response p w) h

  answer-Sound :
      (w : World) (p : ℕ) (request response : Json) (result_type : Str)
      → Sound p w.peers
      → Sound p (handle_routing_response g w p request response result_type).1.peers
  answer-Sound w p request response result_type h =
      sound p w.peers _ h.1 (addrs-handle_routing_response g w p request response result_type)
        (handle_routing_response-SlotsLive g w p request response result_type h.0)

  parse_answer-Sound :
      (w : World) (p : ℕ) (request : Json) (result error : Option Json)
      → Sound p w.peers
      → Sound p (parse_answer g info w p request result error).1.peers
  unfolding parse_answer
  parse_answer-Sound w p request (some result) error h =
      answer-Sound w p request result (codes "result") h
  parse_answer-Sound w p request none (some error) h =
      answer-Sound w p request error (codes "error") h
  parse_answer-Sound w p request none none h = send_response-Sound _ p w h

  parse_method-Sound :
      (w : World) (p : ℕ) (request : Json) (method : Option Json)
      → Sound p w.peers
      → Sound p (parse_method g info w p request method).1.peers
  unfolding parse_method handle_method
  parse_method-Sound w p request none h =
      parse_answer-Sound w p request (g.get_object_item request (codes "result"))
        (g.get_object_item request (codes "error")) h
  parse_method-Sound w p request (some (Json.string name)) h =
      send_response-Sound _ p _ (handle_method-Sound w p request name (find_method name) h)
  parse_method-Sound w p request (some Json.null) h = send_response-Sound _ p w h
  parse_method-Sound w p request (some (Json.boolean b)) h = send_response-Sound _ p w h
  parse_method-Sound w p request (some (Json.number a b)) h = send_response-Sound _ p w h
  parse_method-Sound w p request (some (Json.array xs)) h = send_response-Sound _ p w h
  parse_method-Sound w p request (some (Json.object fs)) h = send_response-Sound _ p w h

  parse_json_rpc-Sound :
      (w : World) (p : ℕ) (request : Json)
      → Sound p w.peers
      → Sound p (parse_json_rpc g info w p request).1.peers
  unfolding parse_json_rpc
  parse_json_rpc-Sound w p request h =
      parse_method-Sound w p request (g.get_object_item request (codes "method")) h

  parse_json_array-Sound :
      (w : World) (p : ℕ) (items : Items)
      → Sound p w.peers
      → Sound p (parse_json_array g info w p items).1.peers
  unfolding parse_json_array
  parse_json_array-Sound w p Items.nil h = h
  parse_json_array-Sound w p (Items.cons (Json.object fs) items) h =
      let w1 = (parse_json_rpc g info w p (Json.object fs)).1 in
      let step = parse_json_rpc-Sound w p (Json.object fs) h in
      ground (arith, step, parse_json_array-Sound w1 p items step)
  parse_json_array-Sound w p (Items.cons Json.null items) h = h
  parse_json_array-Sound w p (Items.cons (Json.boolean b) items) h = h
  parse_json_array-Sound w p (Items.cons (Json.number a b) items) h = h
  parse_json_array-Sound w p (Items.cons (Json.string s) items) h = h
  parse_json_array-Sound w p (Items.cons (Json.array xs) items) h = h

  parse_root-Sound :
      (w : World) (p : ℕ) (root : Json)
      → Sound p w.peers
      → Sound p (parse_root g info w p root).1.peers
  unfolding parse_root
  parse_root-Sound w p (Json.array items) h = parse_json_array-Sound w p items h
  parse_root-Sound w p (Json.object fs) h = parse_json_rpc-Sound w p (Json.object fs) h
  parse_root-Sound w p Json.null h = h
  parse_root-Sound w p (Json.boolean b) h = h
  parse_root-Sound w p (Json.number a b) h = h
  parse_root-Sound w p (Json.string s) h = h

  -- A message of a connected peer, batches included, keeps every fetcher table entry a live fetch
  -- and the peer connected.
  pub parse_message-Sound :
      (parsed : Option (Json × ℕ)) (check_length : Bool) (length p : ℕ) (w : World)
      → Sound p w.peers
      → Sound p (parse_message g info parsed check_length length p w).1.peers
  unfolding parse_message
  parse_message-Sound none check_length length p w h = h
  parse_message-Sound (some (root, parsed_length)) check_length length p w h =
      ground (arith, h, parse_root-Sound w p root h)

  pub read_msg-SlotsLive :
      (parsed : Option (Json × ℕ)) (check_length : Bool) (length p : ℕ) (w : World)
      → Sound p w.peers
      → SlotsLive (read_msg g info parsed check_length length p w).peers
  unfolding read_msg
  read_msg-SlotsLive parsed check_length length p w h =
      let w1 = (parse_message g info parsed check_length length p w).1 in
      let h1 = parse_message-Sound parsed check_length length p w h in
      ground (
        arith,
        h1,
        free_peer_resources-SlotsLive g w p h.0,
        free_peer_resources-SlotsLive g w1 p h1.0,
      )
