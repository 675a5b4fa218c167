-- ===== src/Websocket/Handle.antt =====
-- `ws_handle_frame` of websocket.c: which frames may come, and what becomes of each. What the callbacks of
-- the application answer, and whether a pong can be sent, is given by an `App`; the payload of a
-- compressed message goes to it as it came.
pub mod Fragments
pub mod Messages
use cjet.Base.{
  ℕ, ◌+◌, ◌*◌, ◌-◌, Bool, true, false, not, ◌&&◌, ◌||◌, List, [], ◌∷◌, ◌++◌, length, drop, get_or,
  leb, ltb, ◌==◌, if◌then◌else◌,
}
use cjet.Utf8.{init_checker, is_byte_sequence_valid}

-- `enum websocket_callback_return`
pub data WebsocketCallbackReturn : Type 0 where
  ws_closed ws_error ws_ok : WebsocketCallbackReturn

-- `is_fragmented`, `is_frag_compressed` and `frag_opcode` of `ws_flags`
pub record Fragment : Type 0 where
  pub is_fragmented : Bool
  pub is_frag_compressed : Bool
  pub frag_opcode : ℕ

-- `fin`, `rsv` and `opcode` of `ws_flags`, and the payload
pub record Frame : Type 0 where
  pub fin : Bool
  pub rsv : ℕ
  pub opcode : ℕ
  pub payload : List ℕ

-- What happens to the outside: a callback with its payload, a pong, a close frame, the error callback,
-- and a call of a callback that is NULL, where the program ends.
pub data Event : Type 0 where
  text_message_received binary_message_received : Bool → List ℕ → Event
  text_frame_received binary_frame_received : Bool → List ℕ → Bool → Event
  ping_received pong_received send_pong_frame : List ℕ → Event
  close_received websocket_close : ℕ → Event
  on_error : Event
  null_call : Event

-- Which callbacks are set, what they return, and whether sending a pong fails
pub record App : Type 0 where
  pub has_text_message : Bool
  pub has_binary_message : Bool
  pub has_text_frame : Bool
  pub has_binary_frame : Bool
  pub has_ping : Bool
  pub has_pong : Bool
  pub has_close : Bool
  pub answer : Event → WebsocketCallbackReturn
  pub pong_fails : List ℕ → Bool

abbrev pub Reply : Type 0
Reply = WebsocketCallbackReturn × Fragment × List Event

-- `handle_error`, after some events, and WS_CLOSED
unfoldable pub fail : Fragment → List Event → ℕ → Reply
fail f events status = (
  WebsocketCallbackReturn.ws_closed,
  f,
  events ++ (Event.websocket_close status ∷ (Event.on_error ∷ [])),
)

-- `is_status_code_invalid`
unfoldable pub is_status_code_invalid : ℕ → Bool
is_status_code_invalid status_code = not (
    leb 1000 status_code && leb status_code 1003
    || (leb 1007 status_code && leb status_code 1011
        || leb 3000 status_code && leb status_code 4999))

unfoldable pub is_closed : WebsocketCallbackReturn → Bool
is_closed WebsocketCallbackReturn.ws_closed = true
is_closed _ = false

-- A callback that is not set is called.
unfoldable pub crash : Fragment → Reply
crash f = (WebsocketCallbackReturn.ws_closed, f, Event.null_call ∷ [])

abbrev pub no_fragment : Fragment
no_fragment = record { is_fragmented = false; is_frag_compressed = false; frag_opcode = 0 }

module _ (app : App) where
  -- A callback and the end of `case WS_CONTINUATION_FRAME`
  unfoldable pub finish_frame : Fragment → Event → Bool → Reply
  finish_frame f event last_frame =
      (app.answer event, if last_frame then no_fragment else f, event ∷ [])

  -- `case WS_CONTINUATION_FRAME`, which does not look whether its callbacks are set; the
  -- pieces of a compressed message but the last are only collected
  unfoldable pub continuation_frame : Fragment → List ℕ → Bool → Reply
  unfolding finish_frame fail crash
  continuation_frame f payload last_frame =
      let calls = not f.is_frag_compressed || last_frame in
      let binary = Event.binary_frame_received f.is_frag_compressed payload last_frame in
      let text = Event.text_frame_received f.is_frag_compressed payload last_frame in
      if f.frag_opcode == 2
      then (if calls && not app.has_binary_frame then crash f else finish_frame f binary last_frame)
      else if f.frag_opcode == 1
      then (if calls && not app.has_text_frame
          then crash f
          else if is_closed (app.answer text)
          then fail f (text ∷ []) 1007
          else finish_frame f text last_frame)
      else fail f [] 1002

  -- `case WS_TEXT_FRAME`
  unfoldable pub text_frame : Fragment → Bool → List ℕ → Reply
  unfolding fail
  text_frame f compressed payload =
      let event = Event.text_message_received compressed payload in
      if app.has_text_message
      then (if is_closed (app.answer event)
          then fail f (event ∷ []) 1007
          else (app.answer event, f, event ∷ []))
      else fail f [] 1003

  -- `case WS_BINARY_FRAME`
  unfoldable pub binary_frame : Fragment → Bool → List ℕ → Reply
  unfolding fail
  binary_frame f compressed payload =
      let event = Event.binary_message_received compressed payload in
      if app.has_binary_message then (app.answer event, f, event ∷ []) else fail f [] 1003

  -- `case WS_PING_FRAME`
  unfoldable pub ping_frame : Fragment → List ℕ → Reply
  unfolding fail
  ping_frame f payload =
      let pong = Event.send_pong_frame payload in
      if ltb 125 (length payload)
      then fail f [] 1002
      else if app.pong_fails payload
      then (WebsocketCallbackReturn.ws_error, f, [])
      else if app.has_ping
      then (app.answer (Event.ping_received payload), f, pong ∷ (Event.ping_received payload ∷ []))
      else (WebsocketCallbackReturn.ws_ok, f, pong ∷ [])

  -- `case WS_PONG_FRAME`
  unfoldable pub pong_frame : Fragment → List ℕ → Reply
  unfolding fail
  pong_frame f payload =
      if ltb 125 (length payload)
      then fail f [] 1002
      else if app.has_pong
      then (app.answer (Event.pong_received payload), f, Event.pong_received payload ∷ [])
      else (WebsocketCallbackReturn.ws_ok, f, [])

  -- `case WS_CLOSE_FRAME`
  unfoldable pub close_frame : Fragment → List ℕ → Reply
  unfolding fail is_status_code_invalid
  close_frame f payload =
      let n = length payload in
      let status_code = (if leb 2 n then get_or payload 0 0 * 256 + get_or payload 1 0 else 1000) in
      if ltb 2 n && not (is_byte_sequence_valid init_checker (drop 2 payload) true).0
      then fail f [] 1007
      else if n == 1 || (ltb 125 n || is_status_code_invalid status_code)
      then fail f [] 1002
      else (
        WebsocketCallbackReturn.ws_closed,
        f,
        Event.websocket_close 1000
            ∷ (if app.has_close then Event.close_received status_code ∷ [] else []),
      )

  -- The `switch` on the opcode
  unfoldable pub dispatch : Fragment → Bool → ℕ → Bool → List ℕ → Reply
  unfolding continuation_frame text_frame binary_frame ping_frame pong_frame close_frame
  dispatch f compressed opcode fin payload =
      if opcode == 0
      then continuation_frame f payload fin
      else if opcode == 2
      then binary_frame f compressed payload
      else if opcode == 1
      then text_frame f compressed payload
      else if opcode == 9
      then ping_frame f payload
      else if opcode == 10
      then pong_frame f payload
      else if opcode == 8
      then close_frame f payload
      else fail f [] 1002

  -- The checks on a frame that begins or goes on with a fragmented message, and the `switch`
  unfoldable pub check_fragment : Fragment → Bool → Frame → Reply
  unfolding dispatch
  check_fragment f compressed fr =
      let begun : Fragment = record {
        is_fragmented = true;
        is_frag_compressed = compressed || f.is_frag_compressed;
        frag_opcode = fr.opcode;
      } in
      if not fr.fin && leb 8 fr.opcode
      then fail f [] 1002
      else if not fr.fin && not (fr.opcode == 0)
      then (if f.is_fragmented
          then fail f [] 1002
          else dispatch begun compressed 0 false fr.payload)
      else if not fr.fin && (not (fr.rsv == 0) || not f.is_fragmented)
      then fail f [] 1002
      else if f.is_fragmented && (ltb fr.opcode 8 && ltb 0 fr.opcode)
      then fail f [] 1002
      else dispatch f compressed fr.opcode fr.fin fr.payload

  -- `ws_handle_frame`, with `extension_compression.accepted`
  unfoldable pub ws_handle_frame : Bool → Fragment → Frame → Reply
  unfolding check_fragment
  ws_handle_frame accepted f fr =
      if fr.rsv == 0
      then check_fragment f false fr
      else if accepted && (fr.rsv == 4 && ltb fr.opcode 8)
      then check_fragment f true fr
      else fail f [] 1002

  -- The `switch` of `ws_get_payload` on what `ws_handle_frame` returns: whether the next header is read
  unfoldable pub end_payload : Reply → Bool × Fragment × List Event
  end_payload (ret, f, events) = elim ret [
    | ws_ok ↦ (true, f, events)
    | ws_closed ↦ (false, f, events)
    | ws_error ↦ (false, f, events ++ (Event.websocket_close 1011 ∷ (Event.on_error ∷ [])))
  ]

  -- The payloads of frames one after the other, as `ws_get_payload` hands them on
  unfoldable pub get_payloads : Bool → Fragment → List Frame → Bool × Fragment × List Event
  unfolding end_payload ws_handle_frame
  get_payloads accepted f [] = (true, f, [])
  get_payloads accepted f (fr ∷ frs) =
      let (goes_on, f1, events) = end_payload (ws_handle_frame accepted f fr) in
      let (ret, f2, later) = get_payloads accepted f1 frs in
      if goes_on then (ret, f2, events ++ later) else (false, f1, events)
