-- ===== src/Element/Change.antt =====
-- `change_state` of element.c: the peers that it writes to, and what a lookup finds then.
use cjet.Base.{
  ℕ, true, none, some, is_some, ◌≡◌, ◌≢◌, refl, List, [], ◌∷◌, arith, ◌==◌, ==_iff, Bool-cases,
  Option-cases, inl, inr, ◌∙◌,
}
use cjet.Base.Str.{Str, str_eq, str_eq_refl, codes}
use cjet.Json.{Json, Platform}
use cjet.State.{
  Element, Peer, World, find_peer, find_element, update_peer, update_element, deref, attempt,
  element_table_get, table_get,
}
use cjet.Request.{
  require_ok, element_or, Checked, ok, reply, Passes, Passes-bind, get_params, get_path_from_params,
  item_or, invalid_params, require,
}
use cjet.Element.{set_value, store_element, check_change, perform_change, change_state}

find_peer-update_peer :
    (a q : ℕ) (f : Peer → Peer) (ps : List Peer)
    → q ≢ a
    → ((p : Peer) → (f p).addr ≡ p.addr)
    → find_peer q (update_peer a f ps) ≡ find_peer q ps
unfolding find_peer update_peer
find_peer-update_peer a q f [] other same = refl
find_peer-update_peer a q f (p ∷ ps) other same =
    ground
      (arith, same p, ==_iff p.addr a, ==_iff p.addr q, find_peer-update_peer a q f ps other same)

-- The element that passes the checks is a state of the peer that asks.
check_change-owner :
    (g : Platform) (w : World) (p : ℕ) (request : Json)
    → Passes (λ c. (c.0.peer ≡ p) × (is_some c.0.value ≡ true)) (check_change g w p request)
unfolding check_change
check_change-owner g w p request = Passes-bind P (get_params g request) _ (λ params _.
    Passes-bind P (get_path_from_params g request params) _ (λ path _.
      Passes-bind P
        (item_or g params (codes "value") (invalid_params g request (codes "no value found"))) _
        (λ value _. Passes-bind P (element_or (element_table_get w path) _) _ (λ e found.
          Passes-bind P (require (e.peer == p) _) _ (λ _ owned.
            Passes-bind P (require (is_some e.value) _) _
              (λ _ state. ((==_iff e.peer p).0 (require_ok _ _ owned), require_ok _ _ state)))))))
  where
    P : Element × Json → Type 0
    P c = (c.0.peer ≡ p) × (is_some c.0.value ≡ true)

perform_change-others :
    (g : Platform) (w : World) (p q : ℕ) (request : Json) (c : Checked (Element × Json))
    → Passes (λ x. (x.0.peer ≡ p) × (is_some x.0.value ≡ true)) c
    → q ≢ p
    → find_peer q (perform_change g w request c).1.peers ≡ find_peer q w.peers
unfolding perform_change store_element set_value
perform_change-others g w p q request (reply r) owned other = refl
perform_change-others g w p q request (ok (e, value)) owned other =
    let e1 = set_value value e in
    ground (
      arith,
      find_peer-update_peer e.peer q
          (λ x. record x { element_list = update_element e1 x.element_list }) w.peers
          (λ same. other (same ∙ owned.0)) (λ x. refl),
    )

-- A change request of one peer leaves every other peer, with all its elements, as it was.
pub change_state-others :
    (g : Platform) (w : World) (p q : ℕ) (request : Json)
    → q ≢ p
    → find_peer q (change_state g w p request).1.peers ≡ find_peer q w.peers
unfolding change_state
change_state-others g w p q request other =
    perform_change-others g w p q request (check_change g w p request)
      (check_change-owner g w p request) other

find_element-update_element :
    (e : Element) (es : List Element) {d : Element}
    → find_element e.path es ≡ some d
    → find_element e.path (update_element e es) ≡ some e
unfolding find_element update_element
find_element-update_element e [] found = cc
find_element-update_element e (x ∷ es) {d} found = elim (Bool-cases (str_eq x.path e.path)) [
  | inl here ↦ ground (arith, str_eq_refl e.path)
  | inr not_here ↦ ground (arith, find_element-update_element e es {d = d} (ground arith))
]

deref-update_peer :
    (a : ℕ) (path : Str) (f : Peer → Peer) (ps : List Peer)
    → ((p : Peer) → (f p).addr ≡ p.addr)
    → deref (update_peer a f ps) a path
      ≡ elim (find_peer a ps) [ some p ↦ find_element path (f p).element_list | none ↦ none ]
unfolding deref find_peer update_peer
deref-update_peer a path f [] same = refl
deref-update_peer a path f (p ∷ ps) same =
    ground (arith, same p, deref-update_peer a path f ps same)

-- A write through the pointer to an element is what everyone reads from then on.
deref-store_element :
    (e : Element) (ps : List Peer) {d : Element}
    → deref ps e.peer e.path ≡ some d
    → deref (store_element e ps) e.peer e.path ≡ some e
unfolding store_element deref
deref-store_element e ps {d} found = elim (Option-cases (find_peer e.peer ps)) [
  | inl none_there ↦ ground arith
  | inr (p, there) ↦ ground (
    arith,
    deref-update_peer e.peer e.path
        (λ q. record q { element_list = update_element e q.element_list }) ps (λ q. refl),
    find_element-update_element e p.element_list {d = d} (ground arith),
  )
]

-- When no failure is ahead, the element that a change was applied to is looked up with the new
-- value, whatever becomes of the notifications.
pub perform_change-lookup :
    (g : Platform) (w : World) (request value : Json) (e : Element)
    → w.io.outcomes ≡ []
    → table_get e.path w.element_table ≡ some e.peer
    → element_table_get w e.path ≡ some e
    → element_table_get (perform_change g w request (ok (e, value))).1 e.path
      ≡ some (set_value value e)
unfolding perform_change element_table_get attempt
perform_change-lookup g w request value e clear owner found =
    let stored : deref (store_element (set_value value e) w.peers) e.peer e.path
        ≡ some (set_value value e) =
      (unfold set_value in
        deref-store_element (set_value value e) w.peers {d = e} (ground arith)) in
    ground arith
