-- ===== src/Examples/Frames.antt =====
-- The properties of frames at concrete inputs.
use cjet.Base.{ℕ, true, false, List, [], ◌∷◌, ◌++◌, length, ◌≡◌, refl, arith, All, inl}
use cjet.Websocket.Mask.{unmask_payload, xor_bytes}
use cjet.Websocket.Mask.Words.{IsByte}
use cjet.Websocket.Mask.Bytewise.{unmask_payload-bytewise, unmask_payload_twice}
use cjet.Websocket.Frame.{Websocket, Callback, Outcome, read_frame, send_frame}
use cjet.Websocket.Handle.{
  WebsocketCallbackReturn, Frame, Event, App, is_closed, no_fragment, ws_handle_frame, get_payloads,
  check_fragment, dispatch, ping_frame,
}
use cjet.Websocket.Handle.Fragments.{IsTidy, ws_handle_frame-IsTidy}
use cjet.Websocket.Handle.Messages.{first_of, fragments, deliveries, get_payloads-message}
use cjet.Websocket.Delivery.{received, read_frame-send_frame_server, read_frame-send_frame_client}

abbrev key : List ℕ
key = 0x37 ∷ 0xFA ∷ 0x21 ∷ 0x3D ∷ []

key_bytes : All IsByte key
key_bytes = (omega arith, (omega arith, (omega arith, (omega arith, tt))))

-- "Hello Jet"
abbrev hello : List ℕ
hello = 72 ∷ 101 ∷ 108 ∷ 108 ∷ 111 ∷ 32 ∷ 74 ∷ 101 ∷ 116 ∷ []

hello_bytes : All IsByte hello
hello_bytes = (
  omega arith,
  (
    omega arith,
    (
      omega arith,
      (omega arith, (omega arith, (omega arith, (omega arith, (omega arith, (omega arith, tt)))))),
    ),
  ),
)

abbrev fresh : Websocket
fresh = record { fin = 0; rsv = 0; opcode = 0; masked = 0; length = 0; mask = [] }

unmask_payload-bytewise_example : unmask_payload 3 hello key ≡ xor_bytes key 0 hello
unmask_payload-bytewise_example = unmask_payload-bytewise 3 hello key key_bytes hello_bytes

unmask_payload_twice_example : unmask_payload 5 (unmask_payload 3 hello key) key ≡ hello
unmask_payload_twice_example = unmask_payload_twice 3 5 hello key key_bytes hello_bytes

read_frame-send_frame_server_example :
    read_frame false 5 5
      (Outcome.read_exactly 1 Callback.ws_get_header fresh)
      (send_frame true 3 [] hello 1 ++ (0x89 ∷ []))
    ≡ (Outcome.handle_frame (received 1 0 (length hello) fresh) hello, 0x89 ∷ [])
read_frame-send_frame_server_example =
    read_frame-send_frame_server 3 5 1 fresh [] hello (0x89 ∷ []) (omega arith) (omega arith)

read_frame-send_frame_client_example :
    read_frame true 5 5
      (Outcome.read_exactly 1 Callback.ws_get_header fresh)
      (send_frame false 3 key hello 1 ++ (0x89 ∷ []))
    ≡ (
      Outcome.handle_frame (record (received 1 1 (length hello) fresh) { mask = key }) hello,
      0x89 ∷ [],
    )
read_frame-send_frame_client_example =
    read_frame-send_frame_client 3 5 1 fresh key hello (0x89 ∷ []) (omega arith) (omega arith) refl
      key_bytes hello_bytes

abbrev easy_app : App
easy_app = record {
  has_text_message = true;
  has_binary_message = true;
  has_text_frame = true;
  has_binary_frame = true;
  has_ping = true;
  has_pong = true;
  has_close = true;
  answer = λ e. WebsocketCallbackReturn.ws_ok;
  pong_fails = λ m. false;
}

get_payloads-message_example :
    get_payloads easy_app false no_fragment (first_of key ∷ fragments hello (key ∷ []))
    ≡ deliveries easy_app hello (key ∷ (key ∷ []))
get_payloads-message_example = get_payloads-message easy_app false refl key hello (key ∷ [])

-- Both pieces are told, and the connection goes on.
both_told : deliveries easy_app hello (key ∷ []) ≡ (
  true,
  no_fragment,
  Event.text_frame_received false key false ∷ (Event.text_frame_received false hello true ∷ []),
)
unfolding deliveries
both_told = refl

abbrev ping : Frame
ping = record { fin = true; rsv = 0; opcode = 9; payload = hello }

ws_handle_frame-IsTidy_example : IsTidy (ws_handle_frame easy_app false no_fragment ping).1
unfolding ws_handle_frame check_fragment dispatch ping_frame is_closed
ws_handle_frame-IsTidy_example =
    ws_handle_frame-IsTidy easy_app false no_fragment ping (inl refl) refl
