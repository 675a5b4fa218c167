-- ===== src/Live/Fetches.antt =====
-- The requests of fetch.c, as seen from the fetcher tables.
use cjet.Base.{
  is_some, ℕ, ◌+◌, true, ◌||◌, Option, some, ◌≡◌, ◌≢◌, refl, ◌∙◌, List, [], ◌∷◌, ◌++◌, arith, ◌⊎◌,
  inl, inr, ==_iff, ==_refl,
}
use cjet.Json.{Json, Platform}
use cjet.Groups.{AllGroups}
use cjet.State.{Fetch, Peer, Io, World, update_peer, find_peer, delete_fetch}
use cjet.Request.{Checked, ok, reply}
use cjet.Fetch.{
  remove_fetch_from_states_in_peer, remove_fetch_from_states, drop_fetch,
  add_fetch_to_states_in_peer, add_fetch_to_peers, add_fetch_to_states, fetch_groups_of,
}
use cjet.Fetch.Matcher.{create_fetch}
use cjet.Fetch.Requests.{
  append_fetch, add_fetch_to_peer, check_fetch, process_fetch, make_fetch, perform_unfetch,
  register_fetch, start_fetch, remove_fetch_from_peer, check_unfetch, get_elements, drop_fetches,
}
use cjet.Fetch.Slots.{PeerHolds, add_fetch_to_peers-holds, remove_fetch_from_states-holds}
use cjet.Live.Peers.{
  has_fetch, is_live, SlotsLive, SlotsLive-transport, peers_mono, All-update_peer,
}

-- Adding a fetch to tables leaves the lists of fetches alone.
pub is_live-add_fetch_to_peers :
    (g : Platform) (all : AllGroups) (wants : ℕ) (f : Fetch) (ps : List Peer) (io : Io) (b : ℕ)
    → is_live (add_fetch_to_peers g all wants f ps io).1 b ≡ is_live ps b
unfolding add_fetch_to_peers is_live
is_live-add_fetch_to_peers g all wants f [] io b = refl
is_live-add_fetch_to_peers g all wants f (p ∷ ps) io b =
    let (done, es, io1) = add_fetch_to_states_in_peer g all wants f p.element_list io in
    ground (arith, is_live-add_fetch_to_peers g all wants f ps io1 b)

pub add_fetch_to_peers-SlotsLive :
    (g : Platform) (all : AllGroups) (wants : ℕ) (f : Fetch) (ps : List Peer) (io : Io)
    → is_live ps f.addr ≡ true
    → SlotsLive ps
    → SlotsLive (add_fetch_to_peers g all wants f ps io).1
add_fetch_to_peers-SlotsLive g all wants f ps io l h =
    SlotsLive-transport ps (add_fetch_to_peers g all wants f ps io).1
      (is_live-add_fetch_to_peers g all wants f ps io)
      (add_fetch_to_peers-holds (is_live ps) g all wants f ps io l h)

has_fetch-append :
    (a : ℕ) (fs gs : List Fetch) → has_fetch a (fs ++ gs) ≡ has_fetch a fs || has_fetch a gs
unfolding has_fetch
has_fetch-append a [] gs = refl
has_fetch-append a (f ∷ fs) gs = ground (arith, has_fetch-append a fs gs)

-- A new fetch makes nothing dead, and it is live if its peer is there.
is_live-append_fetch :
    (p : ℕ) (f : Fetch) (ps : List Peer) (b : ℕ)
    → is_live ps b ≡ true
    → is_live (update_peer p (append_fetch f) ps) b ≡ true
unfolding is_live update_peer append_fetch
is_live-append_fetch p f [] b h = h
is_live-append_fetch p f (q ∷ ps) b h =
    ground (arith, has_fetch-append b q.fetch_list (f ∷ []), is_live-append_fetch p f ps b)

pub is_live-append_fetch_self :
    (p : ℕ) (f : Fetch) (ps : List Peer)
    → is_some (find_peer p ps) ≡ true
    → is_live (update_peer p (append_fetch f) ps) f.addr ≡ true
unfolding is_live update_peer append_fetch find_peer has_fetch
is_live-append_fetch_self p f [] found = cc
is_live-append_fetch_self p f (q ∷ ps) found = ground (
  arith,
  has_fetch-append f.addr q.fetch_list (f ∷ []),
  ==_refl f.addr,
  is_live-append_fetch_self p f ps,
)

append_fetch-SlotsLive :
    (p : ℕ) (f : Fetch) (ps : List Peer)
    → SlotsLive ps
    → SlotsLive (update_peer p (append_fetch f) ps)
unfolding append_fetch
append_fetch-SlotsLive p f ps h =
    All-update_peer (PeerHolds (is_live (update_peer p (append_fetch f) ps))) p (append_fetch f) ps
      (λ q _ k. k)
      (peers_mono (is_live ps) (is_live (update_peer p (append_fetch f) ps))
        (is_live-append_fetch p f ps) ps h)

-- After a fetch is dropped, the others are live as before.
has_fetch-delete_fetch :
    (a b : ℕ) (fs : List Fetch) → b ≢ a → has_fetch b (delete_fetch a fs) ≡ has_fetch b fs
unfolding has_fetch delete_fetch
has_fetch-delete_fetch a b [] ne = refl
has_fetch-delete_fetch a b (f ∷ fs) ne =
    ground (arith, has_fetch-delete_fetch a b fs ne, ==_iff f.addr b, ==_iff f.addr a)

is_live-drop_fetch :
    (p a b : ℕ) (ps : List Peer) → b ≢ a → is_live (drop_fetch p a ps) b ≡ is_live ps b
unfolding is_live drop_fetch update_peer remove_fetch_from_states remove_fetch_from_states_in_peer
is_live-drop_fetch p a b [] ne = refl
is_live-drop_fetch p a b (q ∷ ps) ne =
    ground (arith, has_fetch-delete_fetch a b q.fetch_list ne, is_live-drop_fetch p a b ps ne)

pub drop_fetch-SlotsLive : (p a : ℕ) (ps : List Peer) → SlotsLive ps → SlotsLive (drop_fetch p a ps)
drop_fetch-SlotsLive p a ps h =
    unfold drop_fetch in
    All-update_peer (PeerHolds (is_live (drop_fetch p a ps))) p
      (λ q. record q { fetch_list = delete_fetch a q.fetch_list }) (remove_fetch_from_states a ps)
      (λ q _ k. k)
      (remove_fetch_from_states-holds (is_live ps) (is_live (drop_fetch p a ps)) a
        (λ b l ne. is_live-drop_fetch p a b ps ne ∙ l) ps h)

pub drop_fetches-SlotsLive :
    (p : ℕ) (fs : List Fetch) (ps : List Peer) → SlotsLive ps → SlotsLive (drop_fetches p fs ps)
unfolding drop_fetches
drop_fetches-SlotsLive p [] ps h = h
drop_fetches-SlotsLive p (f ∷ fs) ps h =
    drop_fetches-SlotsLive p fs (drop_fetch p f.addr ps) (drop_fetch-SlotsLive p f.addr ps h)

module _ (g : Platform) where
  add_fetch_to_states-SlotsLive :
      (w : World) (request : Json) (f : Fetch)
      → is_live w.peers f.addr ≡ true
      → SlotsLive w.peers
      → SlotsLive (add_fetch_to_states g w request f).1.peers
  unfolding add_fetch_to_states
  add_fetch_to_states-SlotsLive w request f l h = ground (
    arith,
    add_fetch_to_peers-SlotsLive g w.all_groups (fetch_groups_of g w.peers f.peer) f w.peers w.io l
        h,
  )

  start_fetch-SlotsLive :
      (w : World) (p : ℕ) (request : Json) (r : (Fetch ⊎ Option Json) × Io)
      → is_some (find_peer p w.peers) ≡ true
      → SlotsLive w.peers
      → SlotsLive (start_fetch g request (register_fetch g w p r)).1.peers
  unfolding start_fetch register_fetch
  start_fetch-SlotsLive w p request (inr response, io1) l h = h
  start_fetch-SlotsLive w p request (inl f, io1) l h =
      add_fetch_to_states-SlotsLive
        (record w {
          peers = update_peer p (append_fetch f) w.peers;
          next_addr = w.next_addr + 1;
          io = io1;
        })
        request f (is_live-append_fetch_self p f w.peers l) (append_fetch-SlotsLive p f w.peers h)

  make_fetch-SlotsLive :
      (w : World) (p : ℕ) (request : Json) (c : Checked (Json × Json))
      → is_some (find_peer p w.peers) ≡ true
      → SlotsLive w.peers
      → SlotsLive (start_fetch g request (make_fetch g w p request c)).1.peers
  unfolding make_fetch start_fetch
  make_fetch-SlotsLive w p request (reply r) l h = h
  make_fetch-SlotsLive w p request (ok (id, params)) l h =
      start_fetch-SlotsLive w p request (create_fetch g w.next_addr p request (some id) params w.io)
        l h

  -- A fetch request leaves every table entry live.
  pub process_fetch-SlotsLive :
      (w : World) (p : ℕ) (request : Json)
      → is_some (find_peer p w.peers) ≡ true
      → SlotsLive w.peers
      → SlotsLive (process_fetch g w p request).1.peers
  unfolding process_fetch add_fetch_to_peer
  process_fetch-SlotsLive w p request l h =
      make_fetch-SlotsLive w p request (check_fetch g w p request) l h

  perform_unfetch-SlotsLive :
      (w : World) (p : ℕ) (request : Json) (c : Checked Fetch)
      → SlotsLive w.peers
      → SlotsLive (perform_unfetch g w p request c).1.peers
  unfolding perform_unfetch
  perform_unfetch-SlotsLive w p request (reply r) h = h
  perform_unfetch-SlotsLive w p request (ok f) h = drop_fetch-SlotsLive p f.addr w.peers h

  -- So does an unfetch request.
  pub remove_fetch_from_peer-SlotsLive :
      (w : World) (p : ℕ) (request : Json)
      → SlotsLive w.peers
      → SlotsLive (remove_fetch_from_peer g w p request).1.peers
  unfolding remove_fetch_from_peer
  remove_fetch_from_peer-SlotsLive w p request h =
      perform_unfetch-SlotsLive w p request (check_unfetch g w p request) h

  -- A get request changes no peer.
  pub peers-get_elements :
      (w : World) (p : ℕ) (request : Json) → (get_elements g w p request).1.peers ≡ w.peers
  unfolding get_elements
  peers-get_elements w p request = ground arith
