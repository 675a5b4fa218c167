-- ===== src/Live/Departure.antt =====
-- `free_peer_resources` of peer.c, as seen from the fetcher tables.
use cjet.Base.{
  ℕ, ◌==◌, Bool, true, false, ◌≡◌, refl, List, [], ◌∷◌, arith, All, Bool-cases, inl, inr, ==_iff,
  ◌∙◌, sym,
}
use cjet.Json.{Platform}
use cjet.State.{Fetch, Element, Peer, Io, World, update_peer, find_peer, delete_fetch}
use cjet.Fetch.{drop_fetch, remove_fetch_from_states, remove_fetch_from_states_in_peer}
use cjet.Fetch.Requests.{fetch_list_of, drop_fetches, remove_all_fetchers_from_peer}
use cjet.Element.{remove_element, remove_elements, remove_all_elements_from_peer, element_list_of}
use cjet.Router.{set_routing_table, remove_routing_info_from_peer, remove_peer_from_routing_table}
use cjet.Peer.{delete_peer, remove_peer_from_tables, remove_peer_from_routes, free_peer_resources}
use cjet.Fetch.Slots.{PeerHolds}
use cjet.Live.Peers.{has_fetch, is_live, SlotsLive, SlotsLive-transport}
use cjet.Live.Fetches.{drop_fetches-SlotsLive}
use cjet.Live.Elements.{remove_elements-SlotsLive}
use cjet.Live.Routes.{other_write-SlotsLive}

fetch_list_of-drop_fetch :
    (p a : ℕ) (ps : List Peer)
    → fetch_list_of (drop_fetch p a ps) p ≡ delete_fetch a (fetch_list_of ps p)
unfolding fetch_list_of drop_fetch update_peer find_peer remove_fetch_from_states
    remove_fetch_from_states_in_peer delete_fetch
fetch_list_of-drop_fetch p a [] = refl
fetch_list_of-drop_fetch p a (q ∷ ps) = ground (arith, fetch_list_of-drop_fetch p a ps)

-- After the fetches of `fs` are dropped, only those are left that are not in it.
delete_fetches : List Fetch → List Fetch → List Fetch
delete_fetches [] l = l
delete_fetches (f ∷ fs) l = delete_fetches fs (delete_fetch f.addr l)

fetch_list_of-drop_fetches :
    (p : ℕ) (fs : List Fetch) (ps : List Peer)
    → fetch_list_of (drop_fetches p fs ps) p ≡ delete_fetches fs (fetch_list_of ps p)
unfolding drop_fetches delete_fetches
fetch_list_of-drop_fetches p [] ps = refl
fetch_list_of-drop_fetches p (f ∷ fs) ps =
    rw (sym (fetch_list_of-drop_fetch p f.addr ps))
      (fetch_list_of-drop_fetches p fs (drop_fetch p f.addr ps))

has_fetch-delete_fetch :
    (a b : ℕ) (l : List Fetch)
    → has_fetch b (delete_fetch a l) ≡ true
    → (b == a) ≡ false × (has_fetch b l ≡ true)
unfolding has_fetch delete_fetch
has_fetch-delete_fetch a b [] h = cc
has_fetch-delete_fetch a b (f ∷ l) h =
    ground (arith, has_fetch-delete_fetch a b l, ==_iff f.addr a, ==_iff f.addr b, ==_iff b a)

delete_fetches-covered :
    (fs l : List Fetch)
    → ((b : ℕ) → has_fetch b l ≡ true → has_fetch b fs ≡ true)
    → (b : ℕ) → has_fetch b (delete_fetches fs l) ≡ false
unfolding has_fetch delete_fetches
delete_fetches-covered [] l cover b = ground (arith, cover b)
delete_fetches-covered (f ∷ fs) l cover b =
    delete_fetches-covered fs (delete_fetch f.addr l)
      (λ c h.
        ground
          (arith, has_fetch-delete_fetch f.addr c l h, cover c, ==_iff f.addr c, ==_iff c f.addr))
      b

-- The peer has no fetch left.
drop_all_fetches :
    (p : ℕ) (ps : List Peer) (b : ℕ)
    → has_fetch b (fetch_list_of (drop_fetches p (fetch_list_of ps p) ps) p) ≡ false
drop_all_fetches p ps b =
    rw (fetch_list_of-drop_fetches p (fetch_list_of ps p) ps)
      (delete_fetches-covered (fetch_list_of ps p) (fetch_list_of ps p) (λ c h. h) b)

fetch_list_of-update_peer :
    (p a : ℕ) (f : Peer → Peer) (ps : List Peer)
    → ((q : Peer) → (f q).fetch_list ≡ q.fetch_list)
    → ((q : Peer) → (f q).addr ≡ q.addr)
    → fetch_list_of (update_peer a f ps) p ≡ fetch_list_of ps p
unfolding fetch_list_of update_peer find_peer
fetch_list_of-update_peer p a f [] keep same = refl
fetch_list_of-update_peer p a f (q ∷ ps) keep same =
    ground (arith, keep q, same q, fetch_list_of-update_peer p a f ps keep same)

fetch_list_of-remove_elements :
    (p : ℕ) (es : List Element) (w : World)
    → fetch_list_of (remove_elements es w).peers p ≡ fetch_list_of w.peers p
unfolding remove_elements
fetch_list_of-remove_elements p [] w = refl
fetch_list_of-remove_elements p (e ∷ es) w =
    fetch_list_of-remove_elements p es (remove_element e w)
    ∙ (unfold remove_element in
        fetch_list_of-update_peer p e.peer _ w.peers (λ q. refl) (λ q. refl))

is_live-delete_peer :
    (a b : ℕ) (ps : List Peer)
    → has_fetch b (fetch_list_of ps a) ≡ false
    → is_live (delete_peer a ps) b ≡ is_live ps b
unfolding is_live delete_peer fetch_list_of find_peer
is_live-delete_peer a b [] h = refl
is_live-delete_peer a b (p ∷ ps) h = ground (arith, is_live-delete_peer a b ps)

All-delete_peer {κ} :
    (P : Peer → Type κ) (a : ℕ) (ps : List Peer) → All P ps → All P (delete_peer a ps)
unfolding delete_peer
All-delete_peer P a [] h = tt
All-delete_peer P a (p ∷ ps) h = elim (Bool-cases (p.addr == a)) [
  | inl e ↦ rw e h.1
  | inr e ↦ rw e (h.0, All-delete_peer P a ps h.1)
]

delete_peer-SlotsLive :
    (a : ℕ) (ps : List Peer)
    → ((b : ℕ) → has_fetch b (fetch_list_of ps a) ≡ false)
    → SlotsLive ps
    → SlotsLive (delete_peer a ps)
delete_peer-SlotsLive a ps none_left h =
    SlotsLive-transport ps (delete_peer a ps) (λ b. is_live-delete_peer a b ps (none_left b))
      (All-delete_peer (PeerHolds (is_live ps)) a ps h)

module _ (g : Platform) where
  is_live-remove_peer_from_tables :
      (a b : ℕ) (ps : List Peer) (io : Io)
      → is_live (remove_peer_from_tables g a ps io).0 b ≡ is_live ps b
  unfolding is_live remove_peer_from_tables remove_peer_from_routing_table
  is_live-remove_peer_from_tables a b [] io = refl
  is_live-remove_peer_from_tables a b (p ∷ ps) io =
      ground
        (arith, is_live-remove_peer_from_tables a b ps (remove_peer_from_routing_table g a p io).1)

  All-remove_peer_from_tables :
      (L : ℕ → Bool) (a : ℕ) (ps : List Peer) (io : Io)
      → All (PeerHolds L) ps
      → All (PeerHolds L) (remove_peer_from_tables g a ps io).0
  unfolding remove_peer_from_tables remove_peer_from_routing_table
  All-remove_peer_from_tables L a [] io h = tt
  All-remove_peer_from_tables L a (p ∷ ps) io h =
      (h.0, All-remove_peer_from_tables L a ps (remove_peer_from_routing_table g a p io).1 h.1)

  pub remove_peer_from_routes-SlotsLive :
      (w : World) (a : ℕ) → SlotsLive w.peers → SlotsLive (remove_peer_from_routes g w a).peers
  unfolding remove_peer_from_routes
  remove_peer_from_routes-SlotsLive w a h =
      SlotsLive-transport w.peers (remove_peer_from_tables g a w.peers w.io).0
        (λ b. is_live-remove_peer_from_tables a b w.peers w.io)
        (All-remove_peer_from_tables (is_live w.peers) a w.peers w.io h)

  -- After a peer is freed, every fetcher table entry is still a fetch of a peer that is left.
  pub free_peer_resources-SlotsLive :
      (w : World) (a : ℕ) → SlotsLive w.peers → SlotsLive (free_peer_resources g w a).peers
  unfolding free_peer_resources remove_all_fetchers_from_peer remove_all_elements_from_peer
  free_peer_resources-SlotsLive w a h =
      let w1 = remove_routing_info_from_peer g w a in
      let w2 = remove_peer_from_routes g w1 a in
      let w3 = remove_all_fetchers_from_peer w2 a in
      let h1 : SlotsLive w1.peers =
        (unfold remove_routing_info_from_peer in
          other_write-SlotsLive a (set_routing_table []) w.peers
            (λ q. unfold set_routing_table in refl) (λ q. unfold set_routing_table in refl) h) in
      let h3 =
        drop_fetches-SlotsLive a (fetch_list_of w2.peers a) w2.peers
          (remove_peer_from_routes-SlotsLive w1 a h1) in
      let es = element_list_of w3.peers a in
      delete_peer-SlotsLive a (remove_elements es w3).peers
        (λ b. rw (fetch_list_of-remove_elements a es w3) (drop_all_fetches a w2.peers b))
        (remove_elements-SlotsLive es w3 h3)
