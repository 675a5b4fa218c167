-- ===== src/Examples/Requests.antt =====
-- The property of the start line at a concrete request.
use cjet.Base.{
  ℕ, suc, Bool, false, Option, some, List, [], ◌∷◌, length, drop, ◌⊎◌, refl, arith, if◌then◌else◌,
}
use cjet.Base.Str.{Str, codes}
use cjet.Http.{
  UrlHandler, HttpConnection, on_url, use_url, init_http_connection, read_start_line, bad_request,
  not_found,
}
use cjet.Http.StartLine.{Execution, GoesOn, IsRefused, Unserved, read_start_line-outcomes}

-- The handler of the daemon, which counts its peers, and a request for another target
abbrev jet_handlers : List (UrlHandler ℕ)
jet_handlers = record { request_target = codes "/api/jet/"; create = some (λ n. suc n) } ∷ []

abbrev get_x : Str
get_x = codes "GET /x HTTP/1.1"

abbrev whole_path : Str → ℕ → Bool → Option (Option (ℕ × ℕ))
whole_path at size is_connect = some (some (0, size))

-- A parser that finds the target behind "GET "
abbrev parse_get : HttpConnection ℕ → Str → ℕ × HttpConnection ℕ
parse_get c buf =
    let (ok, c') = on_url whole_path false c (drop 4 buf) 2 in (if ok then length buf else 6, c')

abbrev fresh : HttpConnection ℕ
fresh = init_http_connection jet_handlers 0

parsed : Execution whole_path parse_get fresh get_x (parse_get fresh get_x)
unfolding on_url use_url
parsed = Execution.called false 4 2 refl (λ bad. ground arith)

read_start_line-outcomes_example :
    GoesOn whole_path parse_get (read_start_line parse_get fresh get_x)
    ⊎ IsRefused whole_path parse_get bad_request (read_start_line parse_get fresh get_x)
    ⊎ (IsRefused whole_path parse_get not_found (read_start_line parse_get fresh get_x)
        × Unserved whole_path parse_get fresh get_x)
read_start_line-outcomes_example =
    read_start_line-outcomes whole_path parse_get jet_handlers 0 get_x (λ e. cc) parsed
