-- ===== src/Http/StartLine.antt =====
-- What becomes of the start line of a request in http_connection.c.
use cjet.Base.{
  ℕ, ◌≤◌, Bool, true, false, ◌&&◌, Option, none, some, List, [], ◌∷◌, ◌++◌, length, drop, leb, ◌≡◌,
  ◌≢◌, ◌⊎◌, inl, inr, refl, ap, ◌∙◌, arith, All,
}
use cjet.Base.Str.{Str, strn_eq, strn_eq_iff}
use cjet.Http.{
  UrlHandler, HttpConnection, ReadCallbackReturn, get_response, find_url_handler, use_url, on_url,
  init_http_connection, read_start_line, send_http_error_response, free_connection, bad_request,
  not_found, call_create,
}

nonempty : (buf : Str) → buf ≢ [] → length buf ≢ 0
nonempty [] h = absurd (h refl)
nonempty (c ∷ buf) h = omega arith

module _ {S : Type 0} where
  -- The target of a handler begins the path.
  abbrev pub Serves : UrlHandler S → Str → ℕ → Type 0
  Serves h url len = (length h.request_target ≤ len) × ((r : Str) × (url ≡ h.request_target ++ r))

  abbrev pub NoneServes : List (UrlHandler S) → Str → ℕ → Type 0
  NoneServes handlers url len = All (λ h. ¬ Serves h url len) handlers

  find_url_handler-none :
      (handlers : List (UrlHandler S)) (url : Str) (len : ℕ)
      → find_url_handler handlers url len ≡ none
      → NoneServes handlers url len
  unfolding find_url_handler
  find_url_handler-none [] url len h = tt
  find_url_handler-none (u ∷ handlers) url len h =
      let size = length u.request_target in
      let missed : ((leb size len && strn_eq size u.request_target url) ≡ false)
          × (find_url_handler handlers url len ≡ none) =
        ground arith in
      let not_this : ¬ Serves u url len = λ (fits, r).
        let begins = (strn_eq_iff u.request_target url).1 r in ground (arith, missed.0, begins) in
      (not_this, find_url_handler-none handlers url len missed.1)

  -- What `on_url` leaves, by what the parser made of the URL
  data UrlOutcome (r : Option (Option (ℕ × ℕ))) (c : HttpConnection S) (at : Str)
      (x : Bool × HttpConnection S) : Type 0 where
    taken :
        x.0 ≡ true
        → x.1.status_code ≡ c.status_code
        → x.1.is_open ≡ c.is_open
        → x.1.written ≡ c.written
        → UrlOutcome r c at x
    no_url : x ≡ (false, record c { status_code = bad_request }) → UrlOutcome r c at x
    no_handler :
        (start len : ℕ)
        → x ≡ (false, record c { status_code = not_found })
        → r ≡ some (some (start, len))
        → NoneServes c.handlers (drop start at) len
        → UrlOutcome r c at x

  module _ (parse_url : Str → ℕ → Bool → Option (Option (ℕ × ℕ)))
      (execute : HttpConnection S → Str → ℕ × HttpConnection S) where
    -- What the HTTP parser documents: on a start line it calls at most `on_url`, with a part of the
    -- text, and an error of the callback stops it before the end of the text.
    pub data Execution (c : HttpConnection S) (buf : Str) (r : ℕ × HttpConnection S) : Type 0 where
      quiet : r.1 ≡ c → Execution c buf r
      called :
          (is_connect : Bool) (off size : ℕ)
          → r.1 ≡ (on_url parse_url is_connect c (drop off buf) size).1
          → ((on_url parse_url is_connect c (drop off buf) size).0 ≡ false → r.0 ≢ length buf)
          → Execution c buf r

    -- A target that no handler serves
    abbrev pub Unserved : HttpConnection S → Str → Type 0
    Unserved c buf =
        (is_connect : Bool) × (off : ℕ) × (size : ℕ) × (start : ℕ) × (len : ℕ) × (parse_url
            (drop off buf) size is_connect
          ≡ some (some (start, len)))
        × NoneServes c.handlers (drop start (drop off buf)) len

    -- The start line was taken.
    abbrev pub GoesOn : ReadCallbackReturn × HttpConnection S → Type 0
    GoesOn (r, c) =
        (r ≡ ReadCallbackReturn.bs_ok) × (c.is_open ≡ true) × (c.status_code ≡ 0) × (c.written ≡ [])

    -- It was refused with the response of a status.
    abbrev pub IsRefused : ℕ → ReadCallbackReturn × HttpConnection S → Type 0
    IsRefused status (r, c) =
        (r ≡ ReadCallbackReturn.bs_closed)
        × (c.is_open ≡ false)
        × (c.written ≡ get_response status ∷ [])

    use_url-outcome :
        (r : Option (Option (ℕ × ℕ))) (c : HttpConnection S) (at : Str)
        → UrlOutcome r c at (use_url parse_url r c at)
    unfolding use_url
    use_url-outcome none c at = UrlOutcome.no_url refl
    use_url-outcome (some none) c at = UrlOutcome.no_url refl
    use_url-outcome (some (some (start, len))) c at =
        by_handler (find_url_handler c.handlers (drop start at) len) refl
      where
        by_handler :
            (f : Option (UrlHandler S))
            → find_url_handler c.handlers (drop start at) len ≡ f
            → UrlOutcome (some (some (start, len))) c at (elim f as (λ _. Bool × HttpConnection S) [
              | none ↦ (false, record c { status_code = not_found })
              | some h ↦
                  (true, record c { state = call_create h c.state; parser_settings = some h })
            ])
        by_handler none missing =
            UrlOutcome.no_handler start len refl refl
              (find_url_handler-none c.handlers _ len missing)
        by_handler (some h) found = UrlOutcome.taken refl refl refl refl

    -- The turn of `read_start_line` after the parser, by the status
    fine :
        (c : HttpConnection S) (buf : Str)
        → length buf ≢ 0
        → (execute c buf).1.is_open ≡ true
        → (execute c buf).1.written ≡ []
        → (execute c buf).1.status_code ≡ 0
        → GoesOn (read_start_line execute c buf)
          ⊎ IsRefused bad_request (read_start_line execute c buf)
    unfolding read_start_line send_http_error_response free_connection
    fine c buf some_text opened silent new = ground arith

    refused :
        (status : ℕ) (c : HttpConnection S) (buf : Str)
        → length buf ≢ 0
        → (execute c buf).1.written ≡ []
        → (execute c buf).1.status_code ≡ status
        → status ≢ 0
        → (execute c buf).0 ≢ length buf
        → IsRefused status (read_start_line execute c buf)
    unfolding read_start_line send_http_error_response free_connection
    refused status c buf some_text silent is bad stopped = ground arith

    on_url-outcome :
        (is_connect : Bool) (at : Str) (size : ℕ) (c : HttpConnection S)
        → UrlOutcome (parse_url at size is_connect) c at (on_url parse_url is_connect c at size)
    unfolding on_url
    on_url-outcome is_connect at size c = use_url-outcome (parse_url at size is_connect) c at

    abbrev Outcome : HttpConnection S → Str → Type 0
    Outcome c buf =
        let r = read_start_line execute c buf in
        GoesOn r ⊎ IsRefused bad_request r ⊎ (IsRefused not_found r × Unserved c buf)

    outcomes :
        (c : HttpConnection S) (buf : Str)
        → length buf ≢ 0
        → c.is_open ≡ true
        → c.written ≡ []
        → c.status_code ≡ 0
        → Execution c buf (execute c buf)
        → Outcome c buf
    outcomes c buf some_text opened silent new (quiet same) =
        elim (fine c buf some_text (ap (λ d. d.is_open) same ∙ opened)
          (ap (λ d. d.written) same ∙ silent) (ap (λ d. d.status_code) same ∙ new)) [
            | inl on ↦ inl on
            | inr bad ↦ inr (inl bad)
          ]
    outcomes c buf some_text opened silent new (called is_connect off size same stop) =
        by_url (on_url-outcome is_connect (drop off buf) size c)
      where
        by_url :
            UrlOutcome
              (parse_url (drop off buf) size is_connect)
              c
              (drop off buf)
              (on_url parse_url is_connect c (drop off buf) size)
            → Outcome c buf
        by_url (taken ok status open_as written_as) =
            elim (fine c buf some_text (ap (λ d. d.is_open) same ∙ (open_as ∙ opened))
              (ap (λ d. d.written) same ∙ (written_as ∙ silent))
              (ap (λ d. d.status_code) same ∙ (status ∙ new))) [
                | inl on ↦ inl on
                | inr bad ↦ inr (inl bad)
              ]
        by_url (no_url is) = inr (
            inl (
              refused bad_request c buf some_text
                (ap (λ d. d.written) same ∙ (ap (λ x. x.1.written) is ∙ silent))
                (ap (λ d. d.status_code) same ∙ ap (λ x. x.1.status_code) is) (omega arith)
                (stop (ap (λ x. x.0) is))))
        by_url (no_handler start len is parsed unserved) = inr (
            inr (
              refused not_found c buf some_text
                  (ap (λ d. d.written) same ∙ (ap (λ x. x.1.written) is ∙ silent))
                  (ap (λ d. d.status_code) same ∙ ap (λ x. x.1.status_code) is) (omega arith)
                  (stop (ap (λ x. x.0) is)),
              (is_connect, off, size, start, len, parsed, unserved),
            ))

    -- A start line on a new connection, with an HTTP parser that calls at most on_url and stops
    -- where this fails, either goes on, with nothing written, or closes the connection with
    -- exactly one response written: 400, or 404 if no handler's target begins the path.
    pub read_start_line-outcomes :
        (handlers : List (UrlHandler S)) (s : S) (buf : Str)
        → buf ≢ []
        → Execution
            (init_http_connection handlers s)
            buf
            (execute (init_http_connection handlers s) buf)
        → GoesOn (read_start_line execute (init_http_connection handlers s) buf)
          ⊎ IsRefused bad_request (read_start_line execute (init_http_connection handlers s) buf)
          ⊎ (IsRefused not_found (read_start_line execute (init_http_connection handlers s) buf)
              × Unserved (init_http_connection handlers s) buf)
    unfolding init_http_connection
    read_start_line-outcomes handlers s buf some_text run =
        let c = init_http_connection handlers s in
        outcomes c buf (nonempty buf some_text) refl refl refl run
