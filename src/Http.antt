-- ===== src/Http.antt =====
-- http_server.c and http_connection.c: the start line of an HTTP request, up to the handler of its target.
-- `at` is the memory from the text on. The HTTP parser is a parameter: Http/StartLine says what of it is
-- relied on.
pub mod StartLine
use cjet.Base.{
  ℕ, ◌+◌, Bool, true, false, not, ◌&&◌, ◌||◌, Option, none, some, List, [], ◌∷◌, ◌++◌, length, drop,
  leb, ◌==◌, if◌then◌else◌,
}
use cjet.Base.Str.{Str, codes, strn_eq}

-- `struct url_handler`: `create` on the state behind the connections, whose result the caller ignores; the
-- callbacks are known by the handler.
pub record UrlHandler (S : Type 0) : Type 0 where
  pub request_target : Str
  pub create : Option (S → S)

-- `struct http_connection`, with the state behind it, whether its reader is open, what was written, and the
-- handler whose callbacks the parser settings have
pub record HttpConnection (S : Type 0) : Type 0 where
  pub handlers : List (UrlHandler S)
  pub status_code : ℕ
  pub parser_settings : Option (UrlHandler S)
  pub state : S
  pub is_open : Bool
  pub written : List Str

abbrev pub bad_request : ℕ
bad_request = 400

abbrev pub not_found : ℕ
not_found = 404

-- `BS_OK` and `BS_CLOSED`
pub data ReadCallbackReturn : Type 0 where
  bs_ok bs_closed : ReadCallbackReturn

-- `get_response`
unfoldable pub get_response : ℕ → Str
get_response status_code =
    let blank : Str = 13 ∷ 10 ∷ 13 ∷ 10 ∷ [] in
    if status_code == bad_request
    then codes "HTTP/1.0 400 Bad Request" ++ blank
    else if status_code == not_found
    then codes "HTTP/1.0 404 Not Found" ++ blank
    else codes "HTTP/1.0 500 Internal Server Error" ++ blank

module _ {S : Type 0} where
  -- `find_url_handler`
  unfoldable pub find_url_handler : List (UrlHandler S) → Str → ℕ → Option (UrlHandler S)
  find_url_handler [] url url_length = none
  find_url_handler (h ∷ handlers) url url_length =
      let rest = find_url_handler handlers url url_length in
      let size = length h.request_target in
      if leb size url_length && strn_eq size h.request_target url then some h else rest

  -- `(handler->create(connection))`, if there is one
  unfoldable pub call_create : UrlHandler S → S → S
  call_create h s = elim h.create [ none ↦ s | some create ↦ create s ]

  -- `init_http_connection`
  unfoldable pub init_http_connection : List (UrlHandler S) → S → HttpConnection S
  init_http_connection handlers s = record {
    handlers = handlers;
    status_code = 0;
    parser_settings = none;
    state = s;
    is_open = true;
    written = [];
  }

  -- `send_http_error_response`
  unfoldable pub send_http_error_response : HttpConnection S → HttpConnection S
  unfolding get_response
  send_http_error_response c = record c { written = c.written ++ (get_response c.status_code ∷ []) }

  -- `free_connection`
  unfoldable pub free_connection : HttpConnection S → HttpConnection S
  free_connection c = record c { is_open = false }

  -- `http_parser_parse_url`: none for an error, and the offset and length of the path, if it has one
  module _ (parse_url : Str → ℕ → Bool → Option (Option (ℕ × ℕ))) where
    -- What follows `http_parser_parse_url` in `on_url`, true for 0
    unfoldable pub use_url :
        Option (Option (ℕ × ℕ)) → HttpConnection S → Str → Bool × HttpConnection S
    unfolding call_create
    use_url none c at = (false, record c { status_code = bad_request })
    use_url (some none) c at = (false, record c { status_code = bad_request })
    use_url (some (some (off, len))) c at = elim (find_url_handler c.handlers (drop off at) len) [
      | none ↦ (false, record c { status_code = not_found })
      | some h ↦ (true, record c { state = call_create h c.state; parser_settings = some h })
    ]

    -- `on_url`
    unfoldable pub on_url : Bool → HttpConnection S → Str → ℕ → Bool × HttpConnection S
    unfolding use_url
    on_url is_connect c at size = use_url (parse_url at size is_connect) c at

  -- `http_parser_execute`: how much it parsed, and the connection after the callbacks
  module _ (execute : HttpConnection S → Str → ℕ × HttpConnection S) where
    -- `read_start_line`
    unfoldable pub read_start_line : HttpConnection S → Str → ReadCallbackReturn × HttpConnection S
    unfolding send_http_error_response free_connection
    read_start_line c buf =
        let (nparsed, c') = execute c buf in
        let judged = if c'.status_code == 0 then record c' { status_code = bad_request } else c' in
        if length buf == 0
        then (ReadCallbackReturn.bs_closed, free_connection c)
        else if not (nparsed == length buf)
        then (ReadCallbackReturn.bs_closed, free_connection (send_http_error_response judged))
        else (ReadCallbackReturn.bs_ok, c')
