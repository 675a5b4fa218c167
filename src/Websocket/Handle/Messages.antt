-- ===== src/Websocket/Handle/Messages.antt =====
-- A text message in pieces through `ws_handle_frame` and `ws_get_payload` of websocket.c.
use cjet.Base.{ℕ, Bool, true, false, List, [], ◌∷◌, ◌≡◌, refl, ap, ◌∙◌, arith, if◌then◌else◌}
use cjet.Websocket.Handle.{
  WebsocketCallbackReturn, Fragment, Frame, Event, App, fail, crash, is_closed, no_fragment,
  continuation_frame, finish_frame, dispatch, check_fragment, ws_handle_frame, end_payload,
  get_payloads,
}

-- A text message in fragments: the first frame, some in between, and the last
abbrev pub first_of : List ℕ → Frame
first_of m = record { fin = false; rsv = 0; opcode = 1; payload = m }

abbrev pub next_of : Bool → List ℕ → Frame
next_of fin m = record { fin = fin; rsv = 0; opcode = 0; payload = m }

-- The frames of a message in pieces
unfoldable pub fragments : List ℕ → List (List ℕ) → List Frame
fragments last [] = next_of true last ∷ []
fragments last (m ∷ ms) = next_of false m ∷ fragments last ms

abbrev pub text_under_way : Fragment
text_under_way = record { is_fragmented = true; is_frag_compressed = false; frag_opcode = 1 }

-- What one piece should lead to: its callback, and then what follows it, or the end of the connection,
-- with the status 1007 where the callback closes and 1011 where it fails
unfoldable pub told :
    App → Bool → List ℕ → Bool × Fragment × List Event → Bool × Fragment × List Event
told app fin m (ret, f, later) =
    let e = Event.text_frame_received false m fin in
    elim (app.answer e) [
      | WebsocketCallbackReturn.ws_ok ↦ (ret, f, e ∷ later)
      | WebsocketCallbackReturn.ws_closed ↦
          (false, text_under_way, e ∷ (Event.websocket_close 1007 ∷ (Event.on_error ∷ [])))
      | WebsocketCallbackReturn.ws_error ↦ (
        false,
        if fin then no_fragment else text_under_way,
        e ∷ (Event.websocket_close 1011 ∷ (Event.on_error ∷ [])),
      )
    ]

-- What the pieces should lead to: their callbacks in order, up to the first that is not answered with WS_OK
unfoldable pub deliveries : App → List ℕ → List (List ℕ) → Bool × Fragment × List Event
unfolding told
deliveries app last [] = told app true last (true, no_fragment, [])
deliveries app last (m ∷ ms) = told app false m (deliveries app last ms)

module _ (app : App) (accepted : Bool) (set : app.has_text_frame ≡ true) where
  next_told :
      (fin : Bool) (m : List ℕ) (frs : List Frame)
      → get_payloads app accepted text_under_way (next_of fin m ∷ frs)
        ≡ told app fin m
            (get_payloads app accepted (if fin then no_fragment else text_under_way) frs)
  unfolding get_payloads end_payload ws_handle_frame check_fragment dispatch continuation_frame
      finish_frame fail crash is_closed told
  next_told true m frs = ground (arith, set)
  next_told false m frs = ground (arith, set)

  payloads_told :
      (last : List ℕ) (ms : List (List ℕ))
      → get_payloads app accepted text_under_way (fragments last ms) ≡ deliveries app last ms
  unfolding fragments deliveries
  payloads_told last [] = next_told true last [] ∙ (unfold get_payloads in refl)
  payloads_told last (m ∷ ms) =
      next_told false m (fragments last ms) ∙ ap (told app false m) (payloads_told last ms)

  first_told :
      (m : List ℕ) (frs : List Frame)
      → get_payloads app accepted no_fragment (first_of m ∷ frs)
        ≡ told app false m (get_payloads app accepted text_under_way frs)
  unfolding get_payloads end_payload ws_handle_frame check_fragment dispatch continuation_frame
      finish_frame fail crash is_closed told
  first_told m frs = ground (arith, set)

  -- For an application that has set text_frame_received, a text message in two or more
  -- uncompressed pieces, each in a frame of its own, leads to that callback for each piece, in
  -- order and with only the last marked as last. If all are answered with WS_OK, the next header
  -- is read, and no message is under way; the first other answer ends the connection, with the
  -- status 1007 for WS_CLOSED and 1011 for WS_ERROR, and no further callback but on_error.
  pub get_payloads-message :
      (first last : List ℕ) (ms : List (List ℕ))
      → get_payloads app accepted no_fragment (first_of first ∷ fragments last ms)
        ≡ deliveries app last (first ∷ ms)
  unfolding deliveries
  get_payloads-message first last ms =
      first_told first (fragments last ms) ∙ ap (told app false first) (payloads_told last ms)
