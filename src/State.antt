-- ===== src/State.antt =====
-- The data that the daemon keeps: peers with the elements and fetches that they own (peer.h,
-- element.h, fetch.h, router.h), the table of elements (table.c), and what the outside answers.
-- A peer is named by its address. An element is owned by its peer's `element_list`, and a pointer to
-- it is the pair of its owner and its path, which never change while it lives. A fetch is named by
-- its address too; nothing in it changes after it was made, so its pointers are copies of it.
use cjet.Base.{ℕ, Bool, true, false, Option, none, some, List, [], ◌∷◌, ◌++◌, ◌==◌, if◌then◌else◌}
use cjet.Base.Str.{Str, str_eq}
use cjet.Json.{Json}
use cjet.Groups.{AllGroups}

-- The rows of `matchers`, by name.
pub data MatchName : Type 0 where
  equals contains starts_with ends_with equals_not contains_all_of : MatchName

-- `struct path_matcher`: the match function is the row of the table with the column.
pub record PathMatcher : Type 0 where
  pub name : MatchName
  pub ignore_case : Bool
  pub path_elements : List Str

-- `struct fetch`: `matcher` has `number_of_matchers` slots.
pub record Fetch : Type 0 where
  pub addr : ℕ
  pub fetch_id : Option Json
  pub peer : ℕ
  pub matcher : List (Option PathMatcher)

-- `struct element`: `fetcher_table` has `fetch_table_size` slots.
pub record Element : Type 0 where
  pub path : Str
  pub peer : ℕ
  pub value : Option Json
  pub fetcher_table : List (Option Fetch)
  pub fetch_groups : ℕ
  pub set_groups : ℕ
  pub call_groups : ℕ
  pub fetch_only : Bool
  pub timeout_nsec : ℕ

-- `struct routing_request`, with a timer that runs while the request stands in a table
pub record RoutingRequest : Type 0 where
  pub id : Str
  pub requesting_peer : ℕ
  pub owner_peer : ℕ
  pub origin_request_id : Option Json

-- `struct peer`
pub record Peer : Type 0 where
  pub addr : ℕ
  pub element_list : List Element
  pub fetch_list : List Fetch
  pub routing_table : List RoutingRequest
  pub name : Option Str
  pub user_name : Option Str
  pub fetch_groups : ℕ
  pub set_groups : ℕ
  pub call_groups : ℕ
  pub is_local_connection : Bool

-- What is done to the outside. `outcomes` are the answers still to come: each allocation, each send,
-- each start or stop of a timer takes one, `false` for failure; when the list is used up they succeed.
pub record Io : Type 0 where
  pub outcomes : List Bool
  pub sent : List (ℕ × Json)
  -- the bytes that `cjet_get_random_bytes` will give, then zeros
  pub random : List ℕ

-- The whole state: the globals `peer_list`, `element_hashtable`, `all_groups`, `users`,
-- `number_of_peers` and `uuid`, and the next address that the allocator gives out.
pub record World : Type 0 where
  pub peers : List Peer
  pub element_table : List (Str × ℕ)
  pub all_groups : AllGroups
  pub users : Option Json
  pub number_of_peers : ℕ
  pub uuid : ℕ
  pub next_addr : ℕ
  pub io : Io

-- The next outcome.
unfoldable pub attempt : Io → Bool × Io
attempt io = elim io.outcomes [ [] ↦ (true, io) | b ∷ bs ↦ (b, record io { outcomes = bs }) ]

-- `p->send_message(p, …)`: a message that is handed over is recorded.
unfoldable pub send_message : ℕ → Json → Io → Bool × Io
unfolding attempt
send_message p message io =
    let (ok, io') = attempt io in
    if ok then (true, record io' { sent = io'.sent ++ ((p, message) ∷ []) }) else (false, io')

unfoldable pub find_peer : ℕ → List Peer → Option Peer
find_peer a [] = none
find_peer a (p ∷ ps) = if p.addr == a then some p else find_peer a ps

unfoldable pub find_element : Str → List Element → Option Element
find_element path [] = none
find_element path (e ∷ es) = if str_eq e.path path then some e else find_element path es

unfoldable pub table_get : Str → List (Str × ℕ) → Option ℕ
table_get path [] = none
table_get path ((k, owner) ∷ t) = if str_eq k path then some owner else table_get path t

unfoldable pub table_remove : Str → List (Str × ℕ) → List (Str × ℕ)
table_remove path [] = []
table_remove path ((k, owner) ∷ t) =
    let rest = table_remove path t in if str_eq k path then rest else (k, owner) ∷ rest

-- `element_table_put`, for a path that is in the table or not
unfoldable pub table_put : Str → ℕ → List (Str × ℕ) → List (Str × ℕ)
table_put path owner [] = (path, owner) ∷ []
table_put path owner ((k, o) ∷ t) =
    if str_eq k path then (k, owner) ∷ t else (k, o) ∷ table_put path owner t

-- The element that a path and its owner point to.
unfoldable pub deref : List Peer → ℕ → Str → Option Element
deref ps owner path = elim (find_peer owner ps) [
  | some p ↦ find_element path p.element_list
  | none ↦ none
]

-- `element_table_get`
unfoldable pub element_table_get : World → Str → Option Element
unfolding deref
element_table_get w path = elim (table_get path w.element_table) [
  | some owner ↦ deref w.peers owner path
  | none ↦ none
]

-- A write through a pointer to a peer.
unfoldable pub update_peer : ℕ → (Peer → Peer) → List Peer → List Peer
update_peer a f [] = []
update_peer a f (p ∷ ps) = (if p.addr == a then f p else p) ∷ update_peer a f ps

-- A write through a pointer to an element.
unfoldable pub update_element : Element → List Element → List Element
update_element e [] = []
update_element e (d ∷ es) = (if str_eq d.path e.path then e else d) ∷ update_element e es

-- `list_del` of an element: the one with this path
unfoldable pub delete_element : Str → List Element → List Element
delete_element path [] = []
delete_element path (e ∷ es) =
    let rest = delete_element path es in if str_eq e.path path then rest else e ∷ rest

-- `list_del` of a fetch: the one at this address
unfoldable pub delete_fetch : ℕ → List Fetch → List Fetch
delete_fetch a [] = []
delete_fetch a (f ∷ fs) = let rest = delete_fetch a fs in if f.addr == a then rest else f ∷ rest
