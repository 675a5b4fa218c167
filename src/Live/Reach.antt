-- ===== src/Live/Reach.antt =====
-- The daemon as a whole: connections come and go, messages arrive, timers expire, in any order.
use cjet.Base.{
  ℕ, Bool, true, Option, none, is_some, ◌≡◌, refl, List, [], ◌∷◌, ◌++◌, arith, All-append,
}
use cjet.Json.{Json, Platform}
use cjet.State.{Peer, World, RoutingRequest, find_peer}
use cjet.Peer.{init_peer, free_peer_resources}
use cjet.Router.{request_timeout_handler}
use cjet.Rpc.{read_msg}
use cjet.Fetch.Slots.{PeerHolds}
use cjet.Live.Peers.{has_fetch, is_live, SlotsLive, SlotsLive-transport}
use cjet.Live.Routes.{request_timeout_handler-SlotsLive}
use cjet.Live.Departure.{free_peer_resources-SlotsLive}
use cjet.Live.Messages.{read_msg-SlotsLive}

is_live-append_peer :
    (ps : List Peer) (p : Peer) (b : ℕ)
    → p.fetch_list ≡ []
    → is_live (ps ++ (p ∷ [])) b ≡ is_live ps b
unfolding is_live has_fetch
is_live-append_peer [] p b empty = ground (arith, empty)
is_live-append_peer (q ∷ ps) p b empty = ground (arith, is_live-append_peer ps p b empty)

init_peer-SlotsLive :
    (local : Bool) (w : World) → SlotsLive w.peers → SlotsLive (init_peer local w).1.peers
unfolding init_peer
init_peer-SlotsLive local w h = ground (arith, h, with_peer)
  where
    p : Peer
    p = record {
      addr = w.next_addr;
      element_list = [];
      fetch_list = [];
      routing_table = [];
      name = none;
      user_name = none;
      fetch_groups = 0;
      set_groups = 0;
      call_groups = 0;
      is_local_connection = local;
    }

    with_peer : SlotsLive (w.peers ++ (p ∷ []))
    with_peer =
        SlotsLive-transport w.peers (w.peers ++ (p ∷ []))
          (λ b. is_live-append_peer w.peers p b refl)
          (All-append (PeerHolds (is_live w.peers)) w.peers (p ∷ []) h (tt, tt))

module _ (g : Platform) (info : Json) where
  -- What the event loop may do next: accept a connection, read a message of a connected peer, run a
  -- timer that expired, or see a connection end.
  pub data Step : World → World → Type 0 where
    connect : (local : Bool) (w : World) → Step w (init_peer local w).1
    message :
        (parsed : Option (Json × ℕ)) (check_length : Bool) (length p : ℕ) (w : World)
        → is_some (find_peer p w.peers) ≡ true
        → Step w (read_msg g info parsed check_length length p w)
    timeout : (r : RoutingRequest) (w : World) → Step w (request_timeout_handler g r w)
    disconnect : (p : ℕ) (w : World) → Step w (free_peer_resources g w p)

  -- Any number of steps
  pub data Reaches : World → World → Type 0 where
    stay : {w : World} → Reaches w w
    step : {u v w : World} → Reaches u v → Step v w → Reaches u w

  Step-SlotsLive : (v w : World) → Step v w → SlotsLive v.peers → SlotsLive w.peers
  Step-SlotsLive _ _ (connect local v) h = init_peer-SlotsLive local v h
  Step-SlotsLive _ _ (message parsed check_length length p v there) h =
      read_msg-SlotsLive g info parsed check_length length p v (h, there)
  Step-SlotsLive _ _ (timeout r v) h = request_timeout_handler-SlotsLive g r v h
  Step-SlotsLive _ _ (disconnect p v) h = free_peer_resources-SlotsLive g v p h

  -- From a daemon with no peers, in every state that any sequence of connections, messages,
  -- timeouts and disconnections reaches, each non-NULL entry of the fetcher table of each element
  -- is a fetch that stands in the fetch list of some connected peer: no dangling fetch pointers.
  pub Reaches-SlotsLive : (v w : World) → v.peers ≡ [] → Reaches v w → SlotsLive w.peers
  Reaches-SlotsLive v w empty stay = rw empty tt
  Reaches-SlotsLive v w empty (step before last) =
      Step-SlotsLive _ _ last (Reaches-SlotsLive v _ empty before)
