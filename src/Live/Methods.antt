-- ===== src/Live/Methods.antt =====
-- The methods of handle_method in parse.c, as seen from the fetcher tables.
use cjet.Base.{ℕ, true, Option, none, some, is_some, ◌≡◌, List, arith, ◌∙◌}
use cjet.Base.Str.{codes}
use cjet.Json.{Json, Platform}
use cjet.State.{Peer, World, find_peer}
use cjet.Request.{ok, reply, get_params}
use cjet.Router.{Kind}
use cjet.Authenticate.Password.{handle_change_password, change_password}
use cjet.Rpc.{Method, set_name, config_peer, run_method}
use cjet.Live.Peers.{SlotsLive}
use cjet.Live.Fetches.{
  process_fetch-SlotsLive, remove_fetch_from_peer-SlotsLive, peers-get_elements,
}
use cjet.Live.Elements.{change_state-SlotsLive, remove_element_from_peer-SlotsLive}
use cjet.Live.Additions.{add_element_to_peer-SlotsLive}
use cjet.Live.Routes.{
  set_or_call-SlotsLive, handle_authentication-SlotsLive, set_peer_name-SlotsLive,
}
use cjet.Live.Addresses.{
  addrs, is_some-find_peer, addrs-process_fetch, addrs-remove_fetch_from_peer, addrs-change_state,
  addrs-remove_element_from_peer, addrs-add_element_to_peer, addrs-set_peer_name,
}
use cjet.Live.RouteAddresses.{addrs-set_or_call, addrs-handle_authentication}

-- The table entries are live, and the peer at `a` is connected.
abbrev pub Sound : ℕ → List Peer → Type 0
Sound a ps = SlotsLive ps × (is_some (find_peer a ps) ≡ true)

pub sound :
    (a : ℕ) (ps qs : List Peer)
    → is_some (find_peer a ps) ≡ true
    → addrs qs ≡ addrs ps
    → SlotsLive qs
    → Sound a qs
sound a ps qs there same h = (h, is_some-find_peer a qs ps same ∙ there)

module _ (g : Platform) (info : Json) where
  set_name-Sound :
      (w : World) (p : ℕ) (request : Json) (name : Option Json)
      → Sound p w.peers
      → Sound p (set_name g info w p request name).1.peers
  unfolding set_name
  set_name-Sound w p request none h = h
  set_name-Sound w p request (some Json.null) h = h
  set_name-Sound w p request (some (Json.boolean b)) h = h
  set_name-Sound w p request (some (Json.number a b)) h = h
  set_name-Sound w p request (some (Json.string name)) h =
      sound p w.peers _ h.1 (addrs-set_peer_name p name w) (set_peer_name-SlotsLive p name w h.0)
  set_name-Sound w p request (some (Json.array xs)) h = h
  set_name-Sound w p request (some (Json.object fs)) h = h

  config_peer-Sound :
      (w : World) (p : ℕ) (request : Json)
      → Sound p w.peers
      → Sound p (config_peer g info w p request).1.peers
  unfolding config_peer
  config_peer-Sound w p request h =
      elim (get_params g request)
        as (λ c.
          Sound p
            (elim c as (λ _. Option Json × World) [
              | reply r ↦ (r, w)
              | ok params ↦ set_name g info w p request (g.get_object_item params (codes "name"))
            ]).1.peers) [
              | reply r ↦ h
              | ok params ↦ set_name-Sound w p request (g.get_object_item params (codes "name")) h
            ]

  peers-handle_change_password :
      (w : World) (p : ℕ) (request : Json)
      → (handle_change_password g w p request).1.peers ≡ w.peers
  unfolding handle_change_password change_password
  peers-handle_change_password w p request = ground arith

  -- Each method of handle_method keeps every fetcher table entry a live fetch and the peer
  -- connected.
  pub run_method-Sound :
      (w : World) (p : ℕ) (request : Json) (m : Method)
      → Sound p w.peers
      → Sound p (run_method g info w p request m).1.peers
  unfolding run_method
  run_method-Sound w p request Method.change h =
      sound p w.peers _ h.1 (addrs-change_state g w p request)
        (change_state-SlotsLive g w p request h.0)
  run_method-Sound w p request Method.set h =
      sound p w.peers _ h.1 (addrs-set_or_call g w p Kind.state request)
        (set_or_call-SlotsLive g w p Kind.state request h.0)
  run_method-Sound w p request Method.call h =
      sound p w.peers _ h.1 (addrs-set_or_call g w p Kind.method request)
        (set_or_call-SlotsLive g w p Kind.method request h.0)
  run_method-Sound w p request Method.add h =
      sound p w.peers _ h.1 (addrs-add_element_to_peer g w p request)
        (add_element_to_peer-SlotsLive g w p request h.0)
  run_method-Sound w p request Method.remove h =
      sound p w.peers _ h.1 (addrs-remove_element_from_peer g w p request)
        (remove_element_from_peer-SlotsLive g w p request h.0)
  run_method-Sound w p request Method.fetch h =
      sound p w.peers _ h.1 (addrs-process_fetch g w p request)
        (process_fetch-SlotsLive g w p request h.1 h.0)
  run_method-Sound w p request Method.unfetch h =
      sound p w.peers _ h.1 (addrs-remove_fetch_from_peer g w p request)
        (remove_fetch_from_peer-SlotsLive g w p request h.0)
  run_method-Sound w p request Method.get h = rw (peers-get_elements g w p request) h
  run_method-Sound w p request Method.config h = config_peer-Sound w p request h
  run_method-Sound w p request Method.info h = h
  run_method-Sound w p request Method.authenticate h =
      sound p w.peers _ h.1 (addrs-handle_authentication g w p request)
        (handle_authentication-SlotsLive g w p request h.0)
  run_method-Sound w p request Method.passwd h = rw (peers-handle_change_password w p request) h
