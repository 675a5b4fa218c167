-- ===== src/Authenticate/Guards.antt =====
-- Lemmas on handle_authentication of authenticate.c for a peer that has fetched, and on the lengths of the
-- salts of posix/auth_file.c.
use cjet.Base.{
  ℕ, zero, suc, ◌+◌, ◌≤◌, Bool, true, false, some, ◌≡◌, refl, ap, List, [], ◌∷◌, length, ◌++◌,
  arith, ==_iff, Bool-cases, Option-cases, All, length-append, inl, inr,
}
use mathlib.Core.Path.{subst}
use cjet.Base.Str.{Str, codes, strn_eq}
use cjet.Json.{Json, Platform}
use cjet.State.{Io, World}
use cjet.Request.{require_ok, Checked, ok, reply, Passes, Passes-bind, require, invalid_params_for}
use cjet.Fetch.Requests.{fetch_list_of}
use cjet.Authenticate.{
  check_user_and_password, check_authentication, perform_authentication, handle_authentication,
}
use cjet.Authenticate.Password.{
  CryptMethod, methods, random_byte, find_crypt_method, dollar_length, method_of, fill_salt,
  salt_length, get_salt_from_passwd,
}

abbrev pub has_fetches : World → ℕ → Bool
has_fetches w p = elim (fetch_list_of w.peers p) [ [] ↦ false | _ ∷ _ ↦ true ]

module _ (g : Platform) where
  check_authentication-fetched :
      (w : World) (p : ℕ) (request : Json)
      → has_fetches w p ≡ true
      → Passes (λ _. ⊥) (check_authentication g w p request)
  unfolding check_authentication
  check_authentication-fetched w p request fetched =
      Passes-bind (λ _. ⊥) (check_user_and_password g request) _
        (λ c _.
          Passes-bind (λ _. ⊥)
            (require (elim (fetch_list_of w.peers p) [ [] ↦ true | _ ∷ _ ↦ false ]) _) _
            (λ _ allowed. (let a = require_ok _ _ allowed in absurd (ground arith))))

  perform_authentication-refused :
      (w : World) (p : ℕ) (request : Json) (c : Checked (Str × Json))
      → Passes (λ _. ⊥) c
      → (perform_authentication g w p request c).1 ≡ w
  unfolding perform_authentication
  perform_authentication-refused w p request (reply r) h = refl
  perform_authentication-refused w p request (ok c) h = absurd h

  check_authentication-reply :
      (w : World) (p : ℕ) (request : Json) (user password : Str)
      → has_fetches w p ≡ true
      → check_user_and_password g request ≡ ok (user, password)
      → check_authentication g w p request
        ≡ reply (invalid_params_for g request (codes "fetched before authenticate") user)
  unfolding check_authentication
  check_authentication-reply w p request user password fetched named =
      let closed : elim (fetch_list_of w.peers p) as (λ _. Bool) [ [] ↦ true | _ ∷ _ ↦ false ]
          ≡ false =
        ground arith in
      rw (named, closed) refl

  -- While some fetch stands in the list of a peer, its request to authenticate changes nothing,
  -- and if it names a user and a password, right or wrong, the reply is the error fetched before
  -- authenticate.
  pub handle_authentication-fetching :
      (w : World) (p : ℕ) (request : Json)
      → has_fetches w p ≡ true
      → ((handle_authentication g w p request).1 ≡ w)
        × ((user password : Str)
            → check_user_and_password g request ≡ ok (user, password)
            → (handle_authentication g w p request).0
              ≡ invalid_params_for g request (codes "fetched before authenticate") user)
  unfolding handle_authentication perform_authentication
  handle_authentication-fetching w p request fetched = (
    perform_authentication-refused w p request (check_authentication g w p request)
        (check_authentication-fetched w p request fetched),
    λ user password named.
        ap (λ c. (perform_authentication g w p request c).0)
          (check_authentication-reply w p request user password fetched named),
  )

length-fill_salt : (n : ℕ) (io : Io) → length (fill_salt n io).0 ≡ n + 1
unfolding fill_salt
length-fill_salt zero io = refl
length-fill_salt (suc n) io = ground (arith, length-fill_salt n (random_byte io).1)

salt_length-within :
    (m : CryptMethod) (io : Io)
    → m.minlen ≤ m.maxlen
    → (m.minlen ≤ (salt_length m io).0) × ((salt_length m io).0 ≤ m.maxlen)
unfolding salt_length
salt_length-within m io order = ground (arith, ==_iff m.minlen m.maxlen)

-- A method of the table
abbrev InTable : CryptMethod → Type 0
InTable m = (m.minlen ≤ m.maxlen) × (length m.prefix + m.maxlen ≤ 19)

methods-InTable : All InTable methods
methods-InTable = (
  (omega arith, omega arith),
  ((omega arith, omega arith), ((omega arith, omega arith), ((omega arith, omega arith), tt))),
)

find_crypt_method-InTable :
    (n : ℕ) (passwd : Str) (ms : List CryptMethod) {m : CryptMethod}
    → All InTable ms
    → find_crypt_method n passwd ms ≡ some m
    → InTable m
unfolding find_crypt_method
find_crypt_method-InTable n passwd [] h found = cc
find_crypt_method-InTable n passwd (x ∷ ms) {m} h found =
    elim (Bool-cases (strn_eq n passwd x.prefix)) [
      | inl t ↦ subst InTable (let same : x ≡ m = ground arith in same) h.0
      | inr t ↦ find_crypt_method-InTable n passwd ms {m = m} h.1 (ground arith)
    ]

method_of-InTable : (passwd : Str) {m : CryptMethod} → method_of passwd ≡ some m → InTable m
unfolding method_of
method_of-InTable [] found = ground arith
method_of-InTable (c ∷ s) {m} found = elim (Option-cases (dollar_length s)) [
  | inl none_there ↦ ground (arith, none_there)
  | inr (n, there) ↦
      (let from_table : find_crypt_method (n + 1) (c ∷ s) methods ≡ some m → InTable m =
          find_crypt_method-InTable (n + 1) (c ∷ s) methods {m = m} methods-InTable in
        ground (arith, from_table))
]

-- A salt that is made fits with its terminating zero into the 22 bytes of the caller.
pub get_salt_from_passwd-fits :
    (passwd : Str) (io : Io) (salt : Str)
    → (get_salt_from_passwd passwd io).0 ≡ some salt
    → length salt + 1 ≤ 22
unfolding get_salt_from_passwd
get_salt_from_passwd-fits passwd io salt made = elim (Option-cases (method_of passwd)) [
  | inl no_method ↦ ground (arith, no_method)
  | inr (m, known) ↦
      (let (order, short) = method_of-InTable passwd {m = m} known in
        let (n, io1) = salt_length m io in
        let text : salt ≡ m.prefix ++ (fill_salt n io1).0 = ground (arith, known) in
        rw text (
          omega (
            arith,
            length-append m.prefix (fill_salt n io1).0,
            length-fill_salt n io1,
            (salt_length-within m io order).1,
            short,
          )))
]
