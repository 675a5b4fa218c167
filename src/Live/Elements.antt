-- ===== src/Live/Elements.antt =====
-- Changes and removals of element.c, as seen from the fetcher tables.
use cjet.Base.{
  ℕ, Bool, some, ◌≡◌, refl, List, [], ◌∷◌, ◌==◌, arith, All, inl, inr, is_some, Option-cases,
}
use cjet.Base.Str.{Str, codes}
use cjet.Json.{Json, Platform}
use cjet.State.{
  Element, Peer, World, find_peer, update_element, delete_element, deref, element_table_get,
  table_get,
}
use cjet.Request.{
  element_or_ok, element_or, get_params, get_path_from_params, item_or, invalid_params, require,
  Checked, ok, reply, Passes, Passes-bind,
}
use cjet.Element.{
  set_value, store_element, check_change, perform_change, change_state, remove_element,
  check_remove, perform_remove, remove_element_from_peer, remove_elements,
}
use cjet.Fetch.Slots.{ElementHolds, PeerHolds}
use cjet.Live.Peers.{
  is_live, SlotsLive, update_peer-SlotsLive, update_element-holds, delete_element-holds,
  find_element-holds, find_peer-holds,
}

module _ (L : ℕ → Bool) where
  -- The element that a pointer points to has a table like the others.
  pub deref-holds :
      (ps : List Peer) (owner : ℕ) (path : Str) {e : Element}
      → All (PeerHolds L) ps
      → deref ps owner path ≡ some e
      → ElementHolds L e
  unfolding deref
  deref-holds ps owner path {e} h found = elim (Option-cases (find_peer owner ps)) [
    | inl none_there ↦ ground arith
    | inr (p, there) ↦
        find_element-holds (ElementHolds L) path p.element_list {e = e}
          (find_peer-holds (PeerHolds L) owner ps h there) (ground arith)
  ]

  element_table_get-holds :
      (w : World) (path : Str) {e : Element}
      → All (PeerHolds L) w.peers
      → element_table_get w path ≡ some e
      → ElementHolds L e
  unfolding element_table_get
  element_table_get-holds w path {e} h found =
      elim (Option-cases (table_get path w.element_table)) [
        | inl none_there ↦ ground arith
        | inr (owner, there) ↦ deref-holds w.peers owner path {e = e} h (ground arith)
      ]

  check_change-holds :
      (g : Platform) (w : World) (p : ℕ) (request : Json)
      → All (PeerHolds L) w.peers
      → Passes (λ c. ElementHolds L c.0) (check_change g w p request)
  unfolding check_change
  check_change-holds g w p request h = Passes-bind P (get_params g request) _ (λ params _.
      Passes-bind P (get_path_from_params g request params) _ (λ path _.
        Passes-bind P
          (item_or g params (codes "value") (invalid_params g request (codes "no value found"))) _
          (λ value _. Passes-bind P (element_or (element_table_get w path) _) _ (λ e found.
            Passes-bind P (require (e.peer == p) _) _ (λ _ _.
              Passes-bind P (require (is_some e.value) _) _
                (λ _ _. element_table_get-holds w path h (element_or_ok _ _ found)))))))
    where
      P : Element × Json → Type 0
      P c = ElementHolds L c.0

store_element-SlotsLive :
    (e : Element) (ps : List Peer)
    → ElementHolds (is_live ps) e
    → SlotsLive ps
    → SlotsLive (store_element e ps)
unfolding store_element
store_element-SlotsLive e ps l h =
    update_peer-SlotsLive e.peer (λ p. record p { element_list = update_element e p.element_list })
      ps (λ p. refl) (λ p. update_element-holds (ElementHolds (is_live ps)) e p.element_list l) h

perform_change-SlotsLive :
    (g : Platform) (w : World) (request : Json) (c : Checked (Element × Json))
    → Passes (λ x. ElementHolds (is_live w.peers) x.0) c
    → SlotsLive w.peers
    → SlotsLive (perform_change g w request c).1.peers
unfolding perform_change set_value
perform_change-SlotsLive g w request (reply r) l h = h
perform_change-SlotsLive g w request (ok (e, value)) l h =
    ground (arith, store_element-SlotsLive (set_value value e) w.peers l h)

-- A change leaves every table entry live.
pub change_state-SlotsLive :
    (g : Platform) (w : World) (p : ℕ) (request : Json)
    → SlotsLive w.peers
    → SlotsLive (change_state g w p request).1.peers
unfolding change_state
change_state-SlotsLive g w p request h =
    perform_change-SlotsLive g w request (check_change g w p request)
      (check_change-holds (is_live w.peers) g w p request h) h

pub remove_element-SlotsLive :
    (e : Element) (w : World) → SlotsLive w.peers → SlotsLive (remove_element e w).peers
unfolding remove_element
remove_element-SlotsLive e w h =
    update_peer-SlotsLive e.peer
      (λ p. record p { element_list = delete_element e.path p.element_list }) w.peers (λ p. refl)
      (λ p. delete_element-holds (ElementHolds (is_live w.peers)) e.path p.element_list) h

pub remove_elements-SlotsLive :
    (es : List Element) (w : World) → SlotsLive w.peers → SlotsLive (remove_elements es w).peers
unfolding remove_elements
remove_elements-SlotsLive [] w h = h
remove_elements-SlotsLive (e ∷ es) w h =
    remove_elements-SlotsLive es (remove_element e w) (remove_element-SlotsLive e w h)

perform_remove-SlotsLive :
    (g : Platform) (w : World) (request : Json) (c : Checked Element)
    → SlotsLive w.peers
    → SlotsLive (perform_remove g w request c).1.peers
unfolding perform_remove
perform_remove-SlotsLive g w request (reply r) h = h
perform_remove-SlotsLive g w request (ok e) h = remove_element-SlotsLive e w h

pub remove_element_from_peer-SlotsLive :
    (g : Platform) (w : World) (p : ℕ) (request : Json)
    → SlotsLive w.peers
    → SlotsLive (remove_element_from_peer g w p request).1.peers
unfolding remove_element_from_peer
remove_element_from_peer-SlotsLive g w p request h =
    perform_remove-SlotsLive g w request (check_remove g w p request) h
