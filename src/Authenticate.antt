-- ===== src/Authenticate.antt =====
-- authenticate.c, and the user data of posix/auth_file.c that it reads: a peer gets the groups of the
-- user whose password it knows, as long as it has fetched nothing.
pub mod Password
pub mod Guards
use cjet.Base.{ℕ, Bool, true, false, Option, none, some, List, [], ◌∷◌, if◌then◌else◌}
use cjet.Base.Str.{Str, codes, str_eq}
use cjet.Json.{Json, Platform}
use cjet.Groups.{AllGroups, get_groups}
use cjet.Response.{create_success_response_from_request}
use cjet.State.{Peer, Io, World, attempt, update_peer}
use cjet.Request.{
  Checked, ok, reply, ◌>>=◌, ◌>>◌, require, item_or, string_or, invalid_params, internal_error,
  invalid_params_for, get_params,
}
use cjet.Fetch.Requests.{fetch_list_of}

module _ (g : Platform) where
  -- The password that is stored for a user: a string node, or nothing
  unfoldable pub stored_password : Json → Option Str
  stored_password user = elim (g.get_object_item user (codes "password")) [
    | some j ↦ elim j [ Json.string s ↦ some s | _ ↦ none ]
    | none ↦ none
  ]

  -- `credentials_ok`: the `auth` object of a user whose encrypted password is the stored one
  unfoldable pub credentials_ok : Option Json → Str → Str → Option Json
  unfolding stored_password
  credentials_ok none user_name passwd = none
  credentials_ok (some users) user_name passwd = elim (g.get_object_item users user_name) [
    | none ↦ none
    | some user ↦ elim (stored_password user) [
      | none ↦ none
      | some stored ↦ elim (g.crypt passwd stored) [
        | none ↦ none
        | some encrypted ↦
            if str_eq stored encrypted then g.get_object_item user (codes "auth") else none
      ]
    ]
  ]

  -- The checks that `handle_authentication` and `handle_change_password` begin with: user and password
  unfoldable pub check_user_and_password : Json → Checked (Str × Str)
  check_user_and_password request = do
    params ← get_params g request
    user ← item_or g params (codes "user") (invalid_params g request (codes "no user given"))
    user_name ← string_or g user (invalid_params g request (codes "user is not a string"))
    passwd ←
        item_or g params (codes "password") (invalid_params g request (codes "no password given"))
    password ← string_or g passwd (invalid_params g request (codes "password is not a string"))
    ok (user_name, password)

  unfoldable pub check_authentication : World → ℕ → Json → Checked (Str × Json)
  unfolding check_user_and_password
  check_authentication w p request = do
    c ← check_user_and_password request
    require (elim (fetch_list_of w.peers p) [ [] ↦ true | _ ∷ _ ↦ false ])
        (invalid_params_for g request (codes "fetched before authenticate") c.0)
    elim (credentials_ok w.users c.0 c.1) [
      | some auth ↦ ok (c.0, auth)
      | none ↦ reply (invalid_params_for g request (codes "invalid credentials") c.0)
    ]

  -- The peer with the groups of `auth`
  unfoldable pub set_groups_of : AllGroups → Json → Option Str → Peer → Peer
  set_groups_of all auth user_name p = record p {
    fetch_groups = get_groups all (g.get_object_item auth (codes "fetchGroups"));
    set_groups = get_groups all (g.get_object_item auth (codes "setGroups"));
    call_groups = get_groups all (g.get_object_item auth (codes "callGroups"));
    user_name = user_name;
  }

  -- `handle_authentication` once the password was right; the copy of the name is allocated
  unfoldable pub perform_authentication :
      World → ℕ → Json → Checked (Str × Json) → Option Json × World
  unfolding set_groups_of
  perform_authentication w p request (reply r) = (r, w)
  perform_authentication w p request (ok (user_name, auth)) =
      let (ok1, io1) = attempt w.io in
      (
        if ok1
            then create_success_response_from_request g request
            else internal_error g request (codes "not enough memory to allocate user name"),
        record w {
          peers =
              update_peer p (set_groups_of w.all_groups auth (if ok1 then some user_name else none))
                w.peers;
          io = io1;
        },
      )

  -- `handle_authentication`
  unfoldable pub handle_authentication : World → ℕ → Json → Option Json × World
  unfolding perform_authentication
  handle_authentication w p request =
      perform_authentication w p request (check_authentication w p request)
