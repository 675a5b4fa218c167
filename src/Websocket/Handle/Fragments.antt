-- ===== src/Websocket/Handle/Fragments.antt =====
-- The fragments of a message on their way through `ws_handle_frame` of websocket.c.
use cjet.Base.{
  ℕ, Bool, true, false, not, ◌&&◌, ◌||◌, List, [], leb, ltb, ◌==◌, ==_iff, ◌≡◌, refl, sym, ap, ◌∙◌,
  arith, ◌⊎◌, inl, inr, Bool-cases, if◌then◌else◌,
}
use cjet.Websocket.Handle.{
  Fragment, Frame, Event, App, Reply, fail, is_closed, no_fragment, continuation_frame,
  finish_frame, text_frame, binary_frame, ping_frame, pong_frame, close_frame, dispatch,
  check_fragment, ws_handle_frame,
}

-- Between two frames that did not close the connection there is no message under way, or a text or a
-- binary one.
abbrev pub IsTidy : Fragment → Type 0
IsTidy f =
    (f ≡ no_fragment) ⊎ ((f.is_fragmented ≡ true) × ((f.frag_opcode ≡ 1) ⊎ (f.frag_opcode ≡ 2)))

module _ (app : App) where
  continuation_frame-IsTidy :
      (f : Fragment) (payload : List ℕ) (last_frame : Bool)
      → (f ≡ no_fragment) ⊎ (f.is_fragmented ≡ true)
      → is_closed (continuation_frame app f payload last_frame).0 ≡ false
      → IsTidy (continuation_frame app f payload last_frame).1
  unfolding continuation_frame finish_frame fail is_closed
  continuation_frame-IsTidy f payload last_frame (inl empty) goes_on =
      absurd (ground (arith, empty))
  continuation_frame-IsTidy f payload last_frame (inr under_way) goes_on =
      ground (arith, ==_iff f.frag_opcode 1, ==_iff f.frag_opcode 2)

  kept_by_text : (f : Fragment) (c : Bool) (m : List ℕ) → (text_frame app f c m).1 ≡ f
  unfolding text_frame fail
  kept_by_text f c m = ground arith

  kept_by_binary : (f : Fragment) (c : Bool) (m : List ℕ) → (binary_frame app f c m).1 ≡ f
  unfolding binary_frame fail
  kept_by_binary f c m = ground arith

  kept_by_ping : (f : Fragment) (m : List ℕ) → (ping_frame app f m).1 ≡ f
  unfolding ping_frame fail
  kept_by_ping f m = ground arith

  kept_by_pong : (f : Fragment) (m : List ℕ) → (pong_frame app f m).1 ≡ f
  unfolding pong_frame fail
  kept_by_pong f m = ground arith

  kept_by_close : (f : Fragment) (m : List ℕ) → (close_frame app f m).1 ≡ f
  unfolding close_frame fail
  kept_by_close f m = ground arith

  -- Only a continuation changes the message that is under way.
  dispatch-kept :
      (f : Fragment) (c : Bool) (opcode : ℕ) (fin : Bool) (m : List ℕ)
      → (opcode == 0) ≡ false
      → (dispatch app f c opcode fin m).1 ≡ f
  unfolding dispatch fail
  dispatch-kept f c opcode fin m other = ground (
    arith,
    kept_by_text f c m,
    kept_by_binary f c m,
    kept_by_ping f m,
    kept_by_pong f m,
    kept_by_close f m,
  )

  dispatch_zero :
      (f : Fragment) (c : Bool) (fin : Bool) (m : List ℕ)
      → dispatch app f c 0 fin m ≡ continuation_frame app f m fin
  unfolding dispatch
  dispatch_zero f c fin m = refl

  -- What is left of a reply that did not close the connection
  Leaves : Reply → Type 0
  Leaves r = is_closed r.0 ≡ false → IsTidy r.1

  dispatch-Leaves :
      (f : Fragment) (c : Bool) (opcode : ℕ) (fin : Bool) (m : List ℕ)
      → IsTidy f
      → Leaves (dispatch app f c opcode fin m)
  unfolding Leaves
  dispatch-Leaves f c opcode fin m tidy goes_on = elim (Bool-cases (opcode == 0)) [
    | inl zero_code ↦
        (let code : opcode ≡ 0 = (==_iff opcode 0).0 zero_code in
          let same : dispatch app f c opcode fin m ≡ continuation_frame app f m fin =
            (ap (λ o. dispatch app f c o fin m) code ∙ dispatch_zero f c fin m) in
          rw same (
            continuation_frame-IsTidy f m fin (under_way tidy)
              (sym (ap (λ r. is_closed r.0) same) ∙ goes_on)))
    | inr other ↦ rw (dispatch-kept f c opcode fin m other) tidy
  ]
    where
      under_way : IsTidy f → (f ≡ no_fragment) ⊎ (f.is_fragmented ≡ true)
      under_way (inl empty) = inl empty
      under_way (inr (on, code)) = inr on

  begun-Leaves :
      (f : Fragment) (c : Bool) (m : List ℕ)
      → f.is_fragmented ≡ true
      → Leaves (dispatch app f c 0 false m)
  unfolding Leaves
  begun-Leaves f c m on =
      rw (dispatch_zero f c false m) (continuation_frame-IsTidy f m false (inr on))

  fail-Leaves : (f : Fragment) (events : List Event) (status : ℕ) → Leaves (fail f events status)
  unfolding Leaves fail is_closed
  fail-Leaves f events status goes_on = cc

  if-Leaves : (b : Bool) (r q : Reply) → Leaves r → Leaves q → Leaves (if b then r else q)
  if-Leaves true r q hr hq = hr
  if-Leaves false r q hr hq = hq

  check_fragment-Leaves :
      (f : Fragment) (c : Bool) (fr : Frame) → IsTidy f → Leaves (check_fragment app f c fr)
  unfolding check_fragment
  check_fragment-Leaves f c fr tidy =
      let failed = fail-Leaves f [] 1002 in
      let begun : Fragment = record {
        is_fragmented = true;
        is_frag_compressed = c || f.is_frag_compressed;
        frag_opcode = fr.opcode;
      } in
      if-Leaves (not fr.fin && leb 8 fr.opcode) _ _ failed (
        if-Leaves (not fr.fin && not (fr.opcode == 0)) _ _
          (if-Leaves f.is_fragmented _ _ failed (begun-Leaves begun c fr.payload refl))
          (if-Leaves (not fr.fin && (not (fr.rsv == 0) || not f.is_fragmented)) _ _ failed (
            if-Leaves (f.is_fragmented && (ltb fr.opcode 8 && ltb 0 fr.opcode)) _ _ failed
              (dispatch-Leaves f c fr.opcode fr.fin fr.payload tidy))))

  -- After any frame that does not close the connection, either no message is under way and all
  -- flags are clear, or a text or binary message is, if this was so before.
  pub ws_handle_frame-IsTidy :
      (accepted : Bool) (f : Fragment) (fr : Frame)
      → IsTidy f
      → is_closed (ws_handle_frame app accepted f fr).0 ≡ false
      → IsTidy (ws_handle_frame app accepted f fr).1
  unfolding ws_handle_frame
  ws_handle_frame-IsTidy accepted f fr tidy =
      unfold Leaves in
      if-Leaves (fr.rsv == 0) _ _ (check_fragment-Leaves f false fr tidy) (
        if-Leaves (accepted && (fr.rsv == 4 && ltb fr.opcode 8)) _ _
          (check_fragment-Leaves f true fr tidy) (fail-Leaves f [] 1002))
