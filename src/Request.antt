-- ===== src/Request.antt =====
-- request.h, timer.c and the checks of parameters in element.c and fetch.c: a check passes a value on,
-- or ends the request with a response.
use cjet.Base.{ℕ, Bool, true, false, Option, none, some, ◌==◌, ◌≡◌, refl, if◌then◌else◌}
use cjet.Base.Str.{Str, codes}
use cjet.Json.{Json, Platform}
use cjet.State.{Element}
use cjet.Response.{ErrorCode, create_error_response_from_request}

pub data Checked {ℓ} (A : Type ℓ) : Type ℓ where
  ok : A → Checked A
  reply : Option Json → Checked A

infixl 5 ◌>>=◌ ◌>>◌
abbrev pub ◌>>=◌ {ℓ κ} : {A : Type ℓ} {B : Type κ} → Checked A → (A → Checked B) → Checked B
ok a >>= f = f a
reply r >>= f = reply r

abbrev pub ◌>>◌ {ℓ} : {B : Type ℓ} → Checked (Unit {0}) → Checked B → Checked B
m >> k = m >>= λ _. k

-- What holds of the value that the checks pass on.
abbrev pub Passes {ℓ κ} : {A : Type ℓ} → (A → Type κ) → Checked A → Type κ
Passes P (ok a) = P a
Passes P (reply r) = Unit

-- The value that the checks pass on comes from the last of them.
pub Passes-bind {ℓ κ ι} :
    {A : Type ℓ} {B : Type κ} (P : B → Type ι) (m : Checked A) (f : A → Checked B)
    → ((a : A) → m ≡ ok a → Passes P (f a))
    → Passes P (m >>= f)
Passes-bind P (ok a) f h = h a refl
Passes-bind P (reply r) f h = tt

-- Go on if the test holds.
abbrev pub require : Bool → Option Json → Checked (Unit {0})
require true r = ok tt
require false r = reply r

-- An element that was looked up, or the response for its absence
abbrev pub element_or : Option Element → Option Json → Checked Element
element_or none r = reply r
element_or (some e) r = ok e

pub require_ok : (b : Bool) (r : Option Json) {u : Unit {0}} → require b r ≡ ok u → b ≡ true
require_ok true r h = refl
require_ok false r h = cc

pub element_or_ok :
    (o : Option Element) (r : Option Json) {e : Element} → element_or o r ≡ ok e → o ≡ some e
element_or_ok none r found = cc
element_or_ok (some d) r found = cc

module _ (g : Platform) where
  -- `create_error_response_from_request` with the tag "reason"
  abbrev pub invalid_params : Json → Str → Option Json
  invalid_params request reason =
      create_error_response_from_request g request ErrorCode.invalid_params (codes "reason") reason

  abbrev pub internal_error : Json → Str → Option Json
  internal_error request reason =
      create_error_response_from_request g request ErrorCode.internal_error (codes "reason") reason

  -- with another tag, and the path or the user as its text
  abbrev pub invalid_params_for : Json → Str → Str → Option Json
  invalid_params_for request tag text =
      create_error_response_from_request g request ErrorCode.invalid_params tag text

  abbrev pub internal_error_for : Json → Str → Str → Option Json
  internal_error_for request tag text =
      create_error_response_from_request g request ErrorCode.internal_error tag text

  -- the child of a node, or the response for its absence
  abbrev pub item_or : Json → Str → Option Json → Checked Json
  item_or node key r = elim (g.get_object_item node key) [ some j ↦ ok j | none ↦ reply r ]

  -- `get_params`
  unfoldable pub get_params : Json → Checked Json
  get_params request =
      item_or request (codes "params") (invalid_params request (codes "no params found"))

  -- a node that must be a string
  abbrev pub string_or : Json → Option Json → Checked Str
  string_or (Json.string s) r = ok s
  string_or _ r = reply r

  -- `get_path_from_params`
  unfoldable pub get_path_from_params : Json → Json → Checked Str
  get_path_from_params request params = do
    path ← item_or params (codes "path") (invalid_params request (codes "no path given"))
    string_or path (invalid_params request (codes "path is not a string"))

  -- `get_fetch_only_from_params`
  unfoldable pub get_fetch_only_from_params : Json → Json → Checked Bool
  get_fetch_only_from_params request params = elim (g.get_object_item params (codes "fetchOnly")) [
    | none ↦ ok false
    | some j ↦ elim j [
      | Json.boolean b ↦ ok b
      | _ ↦ reply (invalid_params request (codes "fetchOnly is not a bool"))
    ]
  ]

  -- `get_timeout_in_nsec`; the 0 that stands for an error is `reply`
  unfoldable pub get_timeout_in_nsec : Json → Option Json → ℕ → Checked ℕ
  get_timeout_in_nsec request timeout default_timeout = elim timeout [
    | none ↦ ok default_timeout
    | some j ↦ elim j [
      | Json.number _ valuedouble ↦
          if g.timeout_too_small valuedouble
          then reply (invalid_params request (codes "timeout value is too small"))
          else ok (g.convert_seconds_to_nsec valuedouble)
      | _ ↦ reply (invalid_params request (codes "timeout is not a number"))
    ]
  ]

  -- `timeout_nsec == 0` after `get_timeout_in_nsec`: no response was made if the conversion gave 0.
  unfoldable pub nonzero_timeout : ℕ → Checked ℕ
  nonzero_timeout n = if n == 0 then reply none else ok n

  -- `get_fetch_id`
  unfoldable pub get_fetch_id : Json → Json → Checked Json
  get_fetch_id request params = do
    id ← item_or params (codes "id") (invalid_params request (codes "no fetch id given"))
    elim id [
      | Json.string s ↦ ok (Json.string s)
      | Json.number a b ↦ ok (Json.number a b)
      | _ ↦ reply (invalid_params request (codes "fetch id is neither string nor number"))
    ]
