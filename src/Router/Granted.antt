-- ===== src/Router/Granted.antt =====
-- The checks of `set_or_call` in element.c.
use cjet.Base.{ℕ, true, false, not, Option, some, ◌≡◌, refl, arith, ◌⊎◌, inl, inr}
use cjet.Base.Str.{Str}
use cjet.Json.{Json, Platform}
use cjet.State.{Element, World, find_peer, element_table_get}
use cjet.Request.{
  require_ok, element_or_ok, element_or, Checked, ok, reply, Passes, Passes-bind, get_params,
  get_path_from_params, require,
}
use cjet.Router.{Kind}
use cjet.Router.SetOrCall.{
  is_kind, is_authorized, origin_id, check_set_or_call, perform_set_or_call, set_or_call,
}

-- The element is the one that the request names, and the peer at `p` may set or call it.
unfoldable pub Granted : Platform → World → ℕ → Kind → Json → Element → Type 0
Granted g w p what request e =
    ((params : Json) × (path : Str) × (get_params g request ≡ ok params)
      × (get_path_from_params g request params ≡ ok path)
      × (element_table_get w path ≡ some e))
    × (e.fetch_only ≡ false)
    × (is_kind what e ≡ true)
    × (is_authorized w.all_groups what e (find_peer p w.peers) ≡ true)

check_set_or_call-Granted :
    (g : Platform) (w : World) (p : ℕ) (what : Kind) (request : Json)
    → Passes (λ c. Granted g w p what request c.1) (check_set_or_call g w p what request)
unfolding check_set_or_call Granted
check_set_or_call-Granted g w p what request =
    Passes-bind P (get_params g request) _ (λ params has_params.
      Passes-bind P (get_path_from_params g request params) _ (λ path has_path.
        Passes-bind P (element_or (element_table_get w path) _) _ (λ e found.
          Passes-bind P (require (not e.fetch_only) _) _ (λ _ writable.
            Passes-bind P (require (is_kind what e) _) _ (λ _ kind.
              Passes-bind P (require (is_authorized w.all_groups what e (find_peer p w.peers)) _) _
                (λ _ authorized. Passes-bind P (origin_id g request path _) _ (λ id _. (
                  (params, path, has_params, has_path, element_or_ok _ _ found),
                  (let r : not e.fetch_only ≡ true = require_ok _ _ writable in ground arith),
                  require_ok _ _ kind,
                  require_ok _ _ authorized,
                ))))))))
  where
    P : Json × Element × Option Json → Type 0
    P c = Granted g w p what request c.1

perform_set_or_call-Granted :
    (g : Platform) (w : World) (p : ℕ) (what : Kind) (request : Json)
    (c : Checked (Json × Element × Option Json))
    → Passes (λ c. Granted g w p what request c.1) c
    → ((perform_set_or_call g w p what request c).1 ≡ w)
      ⊎ ((e : Element) × Granted g w p what request e)
unfolding perform_set_or_call
perform_set_or_call-Granted g w p what request (reply r) h = inl refl
perform_set_or_call-Granted g w p what request (ok (params, e, id)) h = inr (e, h)

-- A set or call request leaves the whole state as it was, or the element in the table under the
-- path that it names may be set or called by the peer: it is not fetch-only, of the right kind,
-- and the peer has access.
pub set_or_call-Granted :
    (g : Platform) (w : World) (p : ℕ) (what : Kind) (request : Json)
    → ((set_or_call g w p what request).1 ≡ w) ⊎ ((e : Element) × Granted g w p what request e)
unfolding set_or_call
set_or_call-Granted g w p what request =
    perform_set_or_call-Granted g w p what request (check_set_or_call g w p what request)
      (check_set_or_call-Granted g w p what request)
