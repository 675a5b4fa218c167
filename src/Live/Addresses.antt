-- ===== src/Live/Addresses.antt =====
-- The list of peers before and after each request of element.c and fetch.c.
use cjet.Base.{ℕ, Option, some, is_some, ◌≡◌, refl, List, [], ◌∷◌, ◌++◌, arith, ◌⊎◌, inl, inr}
use cjet.Base.Str.{Str}
use cjet.Json.{Json, Platform}
use cjet.Groups.{AllGroups}
use cjet.State.{Fetch, Element, Peer, Io, World, attempt, update_peer, find_peer, update_element}
use cjet.Request.{Checked, ok, reply}
use cjet.Fetch.{
  drop_fetch, add_fetch_to_peers, add_fetch_to_states_in_peer, add_fetch_to_states, fetch_groups_of,
  remove_fetch_from_states, remove_fetch_from_states_in_peer, find_fetchers_in_peers,
  find_fetchers_for_element,
}
use cjet.Fetch.Matcher.{create_fetch}
use cjet.Fetch.Requests.{
  append_fetch, add_fetch_to_peer, check_fetch, process_fetch, make_fetch, perform_unfetch,
  register_fetch, start_fetch, remove_fetch_from_peer, check_unfetch,
}
use cjet.Element.{
  ElementParams, check_element, init_element, insert_element, insert_checked, init_and_insert,
  allocate_and_insert, add_element_to_peer, set_value, store_element, check_change, perform_change,
  change_state, remove_element, check_remove, perform_remove, remove_element_from_peer,
}
use cjet.Peer.{set_peer_name}

-- The addresses of the peers, in the order of the list
unfoldable pub addrs : List Peer → List ℕ
addrs [] = []
addrs (p ∷ ps) = p.addr ∷ addrs ps

pub addrs-update_peer :
    (a : ℕ) (f : Peer → Peer) (ps : List Peer)
    → ((p : Peer) → (f p).addr ≡ p.addr)
    → addrs (update_peer a f ps) ≡ addrs ps
unfolding addrs update_peer
addrs-update_peer a f [] same = refl
addrs-update_peer a f (p ∷ ps) same = ground (arith, same p, addrs-update_peer a f ps same)

-- A peer is in the list if its address is.
pub is_some-find_peer :
    (a : ℕ) (ps qs : List Peer)
    → addrs ps ≡ addrs qs
    → is_some (find_peer a ps) ≡ is_some (find_peer a qs)
unfolding addrs find_peer
is_some-find_peer a [] [] same = refl
is_some-find_peer a [] (q ∷ qs) same = cc
is_some-find_peer a (p ∷ ps) [] same = cc
is_some-find_peer a (p ∷ ps) (q ∷ qs) same =
    ground (arith, is_some-find_peer a ps qs (ground arith))

addrs-drop_fetch : (p a : ℕ) (ps : List Peer) → addrs (drop_fetch p a ps) ≡ addrs ps
unfolding addrs drop_fetch update_peer remove_fetch_from_states remove_fetch_from_states_in_peer
addrs-drop_fetch p a [] = refl
addrs-drop_fetch p a (q ∷ ps) = ground (arith, addrs-drop_fetch p a ps)

addrs-remove_element : (e : Element) (w : World) → addrs (remove_element e w).peers ≡ addrs w.peers
unfolding remove_element
addrs-remove_element e w = addrs-update_peer e.peer _ w.peers (λ p. refl)

pub addrs-set_peer_name :
    (p : ℕ) (name : Str) (w : World) → addrs (set_peer_name p name w).peers ≡ addrs w.peers
unfolding set_peer_name
addrs-set_peer_name p name w = addrs-update_peer p _ w.peers (λ q. refl)

module _ (g : Platform) where
  addrs-add_fetch_to_peers :
      (all : AllGroups) (wants : ℕ) (f : Fetch) (ps : List Peer) (io : Io)
      → addrs (add_fetch_to_peers g all wants f ps io).1 ≡ addrs ps
  unfolding add_fetch_to_peers addrs
  addrs-add_fetch_to_peers all wants f [] io = refl
  addrs-add_fetch_to_peers all wants f (p ∷ ps) io = ground (
    arith,
    addrs-add_fetch_to_peers all wants f ps
        (add_fetch_to_states_in_peer g all wants f p.element_list io).2,
  )

  addrs-start_fetch :
      (w : World) (p : ℕ) (request : Json) (r : (Fetch ⊎ Option Json) × Io)
      → addrs (start_fetch g request (register_fetch g w p r)).1.peers ≡ addrs w.peers
  unfolding start_fetch register_fetch add_fetch_to_states
  addrs-start_fetch w p request (inr response, io1) = refl
  addrs-start_fetch w p request (inl f, io1) =
      let ps = update_peer p (append_fetch f) w.peers in
      ground (
        arith,
        addrs-add_fetch_to_peers w.all_groups (fetch_groups_of g ps f.peer) f ps io1,
        addrs-update_peer p (append_fetch f) w.peers (λ q. unfold append_fetch in refl),
      )

  addrs-make_fetch :
      (w : World) (p : ℕ) (request : Json) (c : Checked (Json × Json))
      → addrs (start_fetch g request (make_fetch g w p request c)).1.peers ≡ addrs w.peers
  unfolding make_fetch start_fetch
  addrs-make_fetch w p request (reply r) = refl
  addrs-make_fetch w p request (ok (id, params)) =
      addrs-start_fetch w p request (create_fetch g w.next_addr p request (some id) params w.io)

  pub addrs-process_fetch :
      (w : World) (p : ℕ) (request : Json)
      → addrs (process_fetch g w p request).1.peers ≡ addrs w.peers
  unfolding process_fetch add_fetch_to_peer
  addrs-process_fetch w p request = addrs-make_fetch w p request (check_fetch g w p request)

  addrs-perform_unfetch :
      (w : World) (p : ℕ) (request : Json) (c : Checked Fetch)
      → addrs (perform_unfetch g w p request c).1.peers ≡ addrs w.peers
  unfolding perform_unfetch
  addrs-perform_unfetch w p request (reply r) = refl
  addrs-perform_unfetch w p request (ok f) = addrs-drop_fetch p f.addr w.peers

  pub addrs-remove_fetch_from_peer :
      (w : World) (p : ℕ) (request : Json)
      → addrs (remove_fetch_from_peer g w p request).1.peers ≡ addrs w.peers
  unfolding remove_fetch_from_peer
  addrs-remove_fetch_from_peer w p request =
      addrs-perform_unfetch w p request (check_unfetch g w p request)

  addrs-perform_change :
      (w : World) (request : Json) (c : Checked (Element × Json))
      → addrs (perform_change g w request c).1.peers ≡ addrs w.peers
  unfolding perform_change store_element
  addrs-perform_change w request (reply r) = refl
  addrs-perform_change w request (ok (e, value)) = ground (arith, written (set_value value e))
    where
      written :
          (d : Element)
          → addrs (
              update_peer d.peer
                (λ p. record p { element_list = update_element d p.element_list })
                w.peers)
            ≡ addrs w.peers
      written d = addrs-update_peer d.peer _ w.peers (λ q. refl)

  pub addrs-change_state :
      (w : World) (p : ℕ) (request : Json)
      → addrs (change_state g w p request).1.peers ≡ addrs w.peers
  unfolding change_state
  addrs-change_state w p request = addrs-perform_change w request (check_change g w p request)

  addrs-perform_remove :
      (w : World) (request : Json) (c : Checked Element)
      → addrs (perform_remove g w request c).1.peers ≡ addrs w.peers
  unfolding perform_remove
  addrs-perform_remove w request (reply r) = refl
  addrs-perform_remove w request (ok e) = addrs-remove_element e w

  pub addrs-remove_element_from_peer :
      (w : World) (p : ℕ) (request : Json)
      → addrs (remove_element_from_peer g w p request).1.peers ≡ addrs w.peers
  unfolding remove_element_from_peer
  addrs-remove_element_from_peer w p request =
      addrs-perform_remove w request (check_remove g w p request)

  addrs-insert_element :
      (w : World) (request : Json) (e : Element) (io : Io)
      → addrs (insert_element g w request e io).1.peers ≡ addrs w.peers
  unfolding insert_element find_fetchers_for_element
  addrs-insert_element w request e io =
      let e1 = (find_fetchers_in_peers g w.all_groups w.peers e io).1 in
      ground (
        arith,
        addrs-update_peer e1.peer (λ p. record p { element_list = p.element_list ++ (e1 ∷ []) })
            w.peers (λ p. refl),
      )

  addrs-insert_checked :
      (w : World) (request : Json) (c : Checked Element × Io)
      → addrs (insert_checked g w request c).1.peers ≡ addrs w.peers
  unfolding insert_checked
  addrs-insert_checked w request (reply r, io) = refl
  addrs-insert_checked w request (ok e, io) = addrs-insert_element w request e io

  addrs-init_and_insert :
      (w : World) (p : ℕ) (request : Json) (io : Io) (c : Checked ElementParams)
      → addrs (init_and_insert g w p request io c).1.peers ≡ addrs w.peers
  unfolding init_and_insert
  addrs-init_and_insert w p request io (reply r) = refl
  addrs-init_and_insert w p request io (ok c) =
      addrs-insert_checked w request (init_element g w p request c io)

  pub addrs-add_element_to_peer :
      (w : World) (p : ℕ) (request : Json)
      → addrs (add_element_to_peer g w p request).1.peers ≡ addrs w.peers
  unfolding add_element_to_peer allocate_and_insert
  addrs-add_element_to_peer w p request =
      ground (arith, addrs-init_and_insert w p request (attempt w.io).1 (check_element g w request))
