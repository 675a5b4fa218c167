-- ===== src/Authenticate/Password.antt =====
-- `handle_change_password` of authenticate.c with `change_password` of posix/auth_file.c: who may set
-- the password of a user, and the salt for the new one. Writing the file takes one outcome.
use cjet.Base.{
  ℕ, zero, suc, ◌+◌, ◌-◌, ◌*◌, ◌%◌, ◌^◌, Bool, false, not, ◌&&◌, ◌||◌, Option, none, some, List, [],
  ◌∷◌, ◌++◌, ◌==◌, get_or, if◌then◌else◌,
}
use cjet.Base.Str.{Str, codes, str_eq, strn_eq}
use cjet.Json.{Json, Platform}
use cjet.Response.{create_success_response_from_request}
use cjet.State.{Peer, Io, World, attempt, find_peer}
use cjet.Request.{Checked, ok, reply, ◌>>=◌, ◌>>◌, require, invalid_params, internal_error}
use cjet.Authenticate.{check_user_and_password, stored_password}

-- `struct crypt_method`, and the table `methods`; `rounds` is not read
pub record CryptMethod : Type 0 where
  pub prefix : Str
  pub minlen : ℕ
  pub maxlen : ℕ

abbrev pub methods : List CryptMethod
methods =
    record { prefix = []; minlen = 2; maxlen = 2 }
    ∷ record { prefix = codes "$1$"; minlen = 8; maxlen = 8 }
    ∷ record { prefix = codes "$5$"; minlen = 8; maxlen = 16 }
    ∷ record { prefix = codes "$6$"; minlen = 8; maxlen = 16 }
    ∷ []

-- `cjet_get_random_bytes` of one byte
unfoldable pub random_byte : Io → ℕ × Io
random_byte io = elim io.random [ [] ↦ (0, io) | b ∷ bs ↦ (b, record io { random = bs }) ]

abbrev pub valid_salts : Str
valid_salts = codes "abcdefghijklmnopqrstuvwxyzABCDEFGHIJKLMNOPQRSTUVWXYZ0123456789./"

-- `fill_salt`: the letters, and the `$` at the end
unfoldable pub fill_salt : ℕ → Io → Str × Io
unfolding random_byte
fill_salt zero io = (b'$' ∷ [], io)
fill_salt (suc n) io =
    let (b, io1) = random_byte io in
    let (rest, io2) = fill_salt n io1 in (get_or valid_salts (b % 64) 0 ∷ rest, io2)

-- The number of characters up to and with the first `$`, as `strchr` finds it
unfoldable pub dollar_length : Str → Option ℕ
dollar_length [] = none
dollar_length (c ∷ s) =
    if c == b'$' then some 1 else elim (dollar_length s) [ some n ↦ some (n + 1) | none ↦ none ]

-- The loop over `methods`: the first whose prefix agrees with the password up to its second `$`
unfoldable pub find_crypt_method : ℕ → Str → List CryptMethod → Option CryptMethod
find_crypt_method n passwd [] = none
find_crypt_method n passwd (m ∷ ms) =
    if strn_eq n passwd m.prefix then some m else find_crypt_method n passwd ms

-- The method of a stored password. One that begins with `$` and has no second `$` is not looked at by
-- the code in a defined way; here it has no method.
unfoldable pub method_of : Str → Option CryptMethod
unfolding dollar_length find_crypt_method
method_of [] = some (record { prefix = []; minlen = 2; maxlen = 2 })
method_of (c ∷ s) =
    if c == b'$'
    then elim (dollar_length s) [ none ↦ none | some n ↦ find_crypt_method (n + 1) (c ∷ s) methods ]
    else some (record { prefix = []; minlen = 2; maxlen = 2 })

-- Four random bytes as an `unsigned int`, the first lowest
unfoldable pub random_int : Io → ℕ × Io
unfolding random_byte
random_int io =
    let (b0, io1) = random_byte io in
    let (b1, io2) = random_byte io1 in
    let (b2, io3) = random_byte io2 in
    let (b3, io4) = random_byte io3 in (b0 + b1 * 2 ^ 8 + b2 * 2 ^ 16 + b3 * 2 ^ 24, io4)

-- The length of the salt in `get_salt_from_passwd`
unfoldable pub salt_length : CryptMethod → Io → ℕ × Io
unfolding random_int
salt_length m io =
    if m.minlen == m.maxlen
    then (m.maxlen, io)
    else (let (r, io1) = random_int io in (r % (m.maxlen - m.minlen + 1) + m.minlen, io1))

-- `get_salt_from_passwd`
unfoldable pub get_salt_from_passwd : Str → Io → Option Str × Io
unfolding method_of salt_length fill_salt
get_salt_from_passwd passwd io = elim (method_of passwd) [
  | none ↦ (none, io)
  | some m ↦
      (let (n, io1) = salt_length m io in
        let (salt, io2) = fill_salt n io1 in (some (m.prefix ++ salt), io2))
]

module _ (g : Platform) where
  -- a node that is `true` under a key
  unfoldable pub is_true : Json → Str → Bool
  is_true user key = elim (g.get_object_item user key) [
    | some j ↦ elim j [ Json.boolean b ↦ b | _ ↦ false ]
    | none ↦ false
  ]

  -- `is_admin`
  unfoldable pub is_admin : Json → Str → Bool
  is_admin users name = elim (g.get_object_item users name) [
    | some user ↦ is_true user (codes "admin")
    | none ↦ false
  ]

  -- `p->user_name`
  unfoldable pub user_name_of : List Peer → ℕ → Option Str
  user_name_of ps a = elim (find_peer a ps) [ some q ↦ q.user_name | none ↦ none ]

  -- The checks of `change_password`: users, user and stored password
  unfoldable pub check_change_password : World → ℕ → Json → Str → Checked (Json × Json × Str)
  check_change_password w p request name = do
    current ← elim (user_name_of w.peers p) [
      | some u ↦ ok u
      | none ↦
          reply
            (invalid_params g request (codes "non-authenticated peer can't change any passwords"))
    ]
    users ← elim w.users [
      | some u ↦ ok u
      | none ↦ reply (invalid_params g request (codes "user not in password database"))
    ]
    user ← elim (g.get_object_item users name) [
      | some u ↦ ok u
      | none ↦ reply (invalid_params g request (codes "user not in password database"))
    ]
    require
        (not (is_true user (codes "readonly")) && (str_eq current name || is_admin users current))
        (invalid_params g request (codes "user not allowed to change password"))
    stored ← elim (stored_password g user) [
      | some s ↦ ok s
      | none ↦ elim (g.get_object_item user (codes "password")) [
        | none ↦
            reply (invalid_params g request (codes "no password for user in password database"))
        | some _ ↦ reply (
            invalid_params g request
              (codes "password for user in password database is not a string"))
      ]
    ]
    ok (users, user, stored)

  -- `change_password`
  unfoldable pub change_password : World → ℕ → Json → Str → Str → Option Json × World
  unfolding check_change_password
  change_password w p request name passwd = elim (check_change_password w p request name) [
    | reply r ↦ (r, w)
    | ok (users, user, stored) ↦
        (let (salt, io1) = get_salt_from_passwd stored w.io in
          elim salt [
            | none ↦ (
              invalid_params g request (codes "can't create salt for new password"),
              record w { io = io1 },
            )
            | some s ↦ elim (g.crypt passwd s) [
              | none ↦ (
                invalid_params g request (codes "could not encrypt password"),
                record w { io = io1 },
              )
              | some encrypted ↦
                  (let (written, io2) = attempt io1 in
                    let user1 =
                      g.replace_item_in_object user (codes "password") (Json.string encrypted) in
                    (
                      if written
                          then create_success_response_from_request g request
                          else internal_error g request (codes "Could not write password file"),
                      record w {
                        users = some (g.replace_item_in_object users name user1);
                        io = io2;
                      },
                    ))
            ]
          ])
  ]

  -- `handle_change_password`
  unfoldable pub handle_change_password : World → ℕ → Json → Option Json × World
  handle_change_password w p request = elim (check_user_and_password g request) [
    | reply r ↦ (r, w)
    | ok (user_name, passwd) ↦ change_password w p request user_name passwd
  ]
