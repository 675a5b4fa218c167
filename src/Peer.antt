-- ===== src/Peer.antt =====
-- peer.c: a peer comes and goes. `free_peer_resources` ends its routed requests, its fetches and its
-- elements, in this order, before the peer leaves the list.
use cjet.Base.{ℕ, ◌+◌, ◌-◌, Bool, Option, none, some, List, [], ◌∷◌, ◌++◌, ◌==◌, if◌then◌else◌}
use cjet.Base.Str.{Str}
use cjet.Json.{Platform}
use cjet.State.{Peer, Io, World, attempt, update_peer}
use cjet.Fetch.Requests.{remove_all_fetchers_from_peer}
use cjet.Element.{remove_all_elements_from_peer}
use cjet.Router.{remove_routing_info_from_peer, remove_peer_from_routing_table}

-- `init_peer`, for memory that was zero: the routing table is allocated. On failure nothing is added.
unfoldable pub init_peer : Bool → World → Option ℕ × World
init_peer is_local_connection w =
    let (ok, io1) = attempt w.io in
    let p : Peer = record {
      addr = w.next_addr;
      element_list = [];
      fetch_list = [];
      routing_table = [];
      name = none;
      user_name = none;
      fetch_groups = 0;
      set_groups = 0;
      call_groups = 0;
      is_local_connection = is_local_connection;
    } in
    if ok
    then (
      some w.next_addr,
      record w {
        peers = w.peers ++ (p ∷ []);
        number_of_peers = w.number_of_peers + 1;
        next_addr = w.next_addr + 1;
        io = io1;
      },
    )
    else (none, record w { io = io1 })

-- `set_peer_name`; the copy is allocated
unfoldable pub set_peer_name : ℕ → Str → World → World
set_peer_name p name w =
    let (ok, io1) = attempt w.io in
    record w {
      peers = update_peer p (λ q. record q { name = if ok then some name else none }) w.peers;
      io = io1;
    }

-- `list_del (&p->next_peer)`: the one node at this address
unfoldable pub delete_peer : ℕ → List Peer → List Peer
delete_peer a [] = []
delete_peer a (p ∷ ps) = if p.addr == a then ps else p ∷ delete_peer a ps

module _ (g : Platform) where
  -- The loop of `remove_peer_from_routes`
  unfoldable pub remove_peer_from_tables : ℕ → List Peer → Io → List Peer × Io
  remove_peer_from_tables a [] io = ([], io)
  remove_peer_from_tables a (p ∷ ps) io =
      let (p1, io1) = remove_peer_from_routing_table g a p io in
      let (ps1, io2) = remove_peer_from_tables a ps io1 in (p1 ∷ ps1, io2)

  -- `remove_peer_from_routes`
  unfoldable pub remove_peer_from_routes : World → ℕ → World
  remove_peer_from_routes w a =
      let (ps, io1) = remove_peer_from_tables a w.peers w.io in record w { peers = ps; io = io1 }

  -- `free_peer_resources`
  unfoldable pub free_peer_resources : World → ℕ → World
  free_peer_resources w a =
      let w1 = remove_routing_info_from_peer g w a in
      let w2 = remove_peer_from_routes w1 a in
      let w3 = remove_all_fetchers_from_peer w2 a in
      let w4 = remove_all_elements_from_peer w3 a in
      record w4 { peers = delete_peer a w4.peers; number_of_peers = w4.number_of_peers - 1 }
