-- ===== src/Fetch.antt =====
-- fetch.c: which elements a peer is told about, and the telling. The loops over `peer_list` and the
-- lists of a peer are recursions on those lists.
pub mod Matcher
pub mod Requests
pub mod Slots
pub mod Matching
pub mod Notify
pub mod Told
use cjet.Base.{
  ℕ, ◌+◌, ◌-◌, ◌*◌, ◌^◌, ◌%◌, Bool, true, false, not, ◌&&◌, ◌||◌, Option, none, some, ◌⊎◌, inl, inr,
  List, [], ◌∷◌, ◌++◌, length, take, map, max, replicate, ◌==◌, if◌then◌else◌,
}
use cjet.Base.Str.{Str, codes, str_eq}
use cjet.Json.{Json, Items, Fields, add_field, add_item, Platform}
use cjet.Groups.{AllGroups, has_access}
use cjet.Response.{
  ErrorCode, create_error_response_from_request, create_success_response_from_request,
  create_result_response_from_request,
}
use cjet.State.{
  Fetch, Element, Peer, Io, World, attempt, send_message, find_peer, update_peer, delete_fetch,
}
use Matcher.{state_matches, create_fetch}

-- `params` of the message of `notify_fetching_peer`
unfoldable pub event_params : Element → Str → Fields
event_params e event_name =
    let path_event = Fields.field (codes "path") (Json.string e.path) (
      Fields.field (codes "event") (Json.string event_name) (elim e.value [
        | some v ↦ Fields.field (codes "value") v Fields.end
        | none ↦ Fields.end
      ])) in
    if e.fetch_only
    then Fields.field (codes "fetchOnly") (Json.boolean true) path_event
    else path_event

-- The message of `notify_fetching_peer` for a fetch with this id
unfoldable pub event_message : Json → Element → Str → Json
unfolding event_params
event_message id e event_name = Json.object (
    Fields.field (codes "method") id
      (Fields.field (codes "params") (Json.object (event_params e event_name)) Fields.end))

-- `notify_fetching_peer`: 0 is `true`. Building and printing the message takes one outcome.
unfoldable pub notify_fetching_peer : Element → Fetch → Str → Io → Bool × Io
notify_fetching_peer e f event_name io =
    let (ok, io1) = attempt io in
    if ok
    then elim f.fetch_id [
      | none ↦ (false, io1)
      | some id ↦ send_message f.peer (event_message id e event_name) io1
    ]
    else (false, io1)

-- The loop of `notify_fetchers`: the first failure ends it.
unfoldable pub notify_table : Element → Str → List (Option Fetch) → Io → Bool × Io
notify_table e event_name [] io = (true, io)
notify_table e event_name (none ∷ t) io = notify_table e event_name t io
notify_table e event_name (some f ∷ t) io =
    let (ok, io1) = notify_fetching_peer e f event_name io in
    elim ok [ true ↦ notify_table e event_name t io1 | false ↦ (false, io1) ]

-- `notify_fetchers`
unfoldable pub notify_fetchers : Element → Str → Io → Bool × Io
notify_fetchers e event_name io = notify_table e event_name e.fetcher_table io

-- The first loop of `add_fetch_to_state`: the first free slot takes the fetch.
unfoldable pub fill_slot : List (Option Fetch) → Fetch → Option (List (Option Fetch))
fill_slot [] f = none
fill_slot (none ∷ t) f = some (some f ∷ t)
fill_slot (some x ∷ t) f = elim (fill_slot t f) [ some t' ↦ some (some x ∷ t') | none ↦ none ]

-- `memcpy` of the old table into a zeroed table of `n` slots
unfoldable pub grow_table : ℕ → List (Option Fetch) → List (Option Fetch)
grow_table n t = take n t ++ replicate (n - length t) none

module _ (g : Platform) where
  -- MAX(CONFIG_INITIAL_FETCH_TABLE_SIZE, e->fetch_table_size * 2)
  unfoldable pub new_table_size : ℕ → ℕ
  new_table_size n = max g.initial_fetch_table_size (n * 2 % 2 ^ 32)

  -- `add_fetch_to_state`: 0 is `true`. After one growth there is a free slot, if the sizes allow it; the
  -- C code would go on recurring otherwise.
  unfoldable pub add_fetch_to_state : Element → Fetch → Io → Bool × Element × Io
  add_fetch_to_state e f io = elim (fill_slot e.fetcher_table f) [
    | some t ↦ (true, record e { fetcher_table = t }, io)
    | none ↦
        (let (ok, io1) = attempt io in
          let grown = grow_table (new_table_size (length e.fetcher_table)) e.fetcher_table in
          if ok
          then elim (fill_slot grown f) [
            | some t ↦ (true, record e { fetcher_table = t }, io1)
            | none ↦ (false, record e { fetcher_table = grown }, io1)
          ]
          else (false, e, io1))
  ]

  -- `add_fetch_to_state_and_notify`; `wants` are the `fetch_groups` of the peer of the fetch
  unfoldable pub add_fetch_to_state_and_notify :
      AllGroups → ℕ → Element → Fetch → Io → Bool × Element × Io
  add_fetch_to_state_and_notify all wants e f io =
      if not (has_access all e.fetch_groups wants)
      then (true, e, io)
      else if state_matches e f
      then (let (ok, e1, io1) = add_fetch_to_state e f io in
          if ok
          then (let (ok', io2) = notify_fetching_peer e1 f (codes "add") io1 in (ok', e1, io2))
          else (false, e1, io1))
      else (true, e, io)

  -- `add_fetch_to_states_in_peer`
  unfoldable pub add_fetch_to_states_in_peer :
      AllGroups → ℕ → Fetch → List Element → Io → Bool × List Element × Io
  add_fetch_to_states_in_peer all wants f [] io = (true, [], io)
  add_fetch_to_states_in_peer all wants f (e ∷ es) io =
      let (ok, e1, io1) = add_fetch_to_state_and_notify all wants e f io in
      let (ok', es', io2) = add_fetch_to_states_in_peer all wants f es io1 in
      elim ok [ true ↦ (ok', e1 ∷ es', io2) | false ↦ (false, e1 ∷ es, io1) ]

  -- The loop of `add_fetch_to_states` over the peers
  unfoldable pub add_fetch_to_peers : AllGroups → ℕ → Fetch → List Peer → Io → Bool × List Peer × Io
  add_fetch_to_peers all wants f [] io = (true, [], io)
  add_fetch_to_peers all wants f (p ∷ ps) io =
      let (ok, es, io1) = add_fetch_to_states_in_peer all wants f p.element_list io in
      let p1 = record p { element_list = es } in
      let (ok', ps', io2) = add_fetch_to_peers all wants f ps io1 in
      elim ok [ true ↦ (ok', p1 ∷ ps', io2) | false ↦ (false, p1 ∷ ps, io1) ]

  -- `f->peer->fetch_groups`
  unfoldable pub fetch_groups_of : List Peer → ℕ → ℕ
  fetch_groups_of ps a = elim (find_peer a ps) [ some q ↦ q.fetch_groups | none ↦ 0 ]

  -- `add_fetch_to_states`. The groups of the fetching peer are read once: the loop does not change them.
  unfoldable pub add_fetch_to_states : World → Json → Fetch → Option Json × World
  add_fetch_to_states w request f =
      let (ok, ps, io1) =
        add_fetch_to_peers w.all_groups (fetch_groups_of w.peers f.peer) f w.peers w.io in
      let w1 = record w { peers = ps; io = io1 } in
      if ok then (create_success_response_from_request g request, w1) else (
        create_error_response_from_request g request ErrorCode.internal_error (codes "reason")
            (codes "could not add fetch to state"),
        w1,
      )

  -- `find_fetchers_for_element_in_peer`
  unfoldable pub find_fetchers_for_element_in_peer :
      AllGroups → ℕ → List Fetch → Element → Io → Bool × Element × Io
  find_fetchers_for_element_in_peer all wants [] e io = (true, e, io)
  find_fetchers_for_element_in_peer all wants (f ∷ fs) e io =
      let (ok, e1, io1) = add_fetch_to_state_and_notify all wants e f io in
      elim ok [
        | true ↦ find_fetchers_for_element_in_peer all wants fs e1 io1
        | false ↦ (false, e1, io1)
      ]

  -- The loop of `find_fetchers_for_element` over the peers; a fetch stands in the list of its peer.
  unfoldable pub find_fetchers_in_peers : AllGroups → List Peer → Element → Io → Bool × Element × Io
  find_fetchers_in_peers all [] e io = (true, e, io)
  find_fetchers_in_peers all (p ∷ ps) e io =
      let (ok, e1, io1) = find_fetchers_for_element_in_peer all p.fetch_groups p.fetch_list e io in
      elim ok [ true ↦ find_fetchers_in_peers all ps e1 io1 | false ↦ (false, e1, io1) ]

  -- `find_fetchers_for_element`
  unfoldable pub find_fetchers_for_element : World → Element → Io → Bool × Element × Io
  find_fetchers_for_element w e io = find_fetchers_in_peers w.all_groups w.peers e io

-- `remove_fetch_from_state`
unfoldable pub clear_slots : ℕ → List (Option Fetch) → List (Option Fetch)
clear_slots a [] = []
clear_slots a (none ∷ t) = none ∷ clear_slots a t
clear_slots a (some f ∷ t) = (if f.addr == a then none else some f) ∷ clear_slots a t

unfoldable pub remove_fetch_from_state : ℕ → Element → Element
remove_fetch_from_state a e = record e { fetcher_table = clear_slots a e.fetcher_table }

-- `remove_fetch_from_states_in_peer`
unfoldable pub remove_fetch_from_states_in_peer : ℕ → Peer → Peer
remove_fetch_from_states_in_peer a p = record p {
  element_list = map (remove_fetch_from_state a) p.element_list;
}

-- `remove_fetch_from_states`
unfoldable pub remove_fetch_from_states : ℕ → List Peer → List Peer
remove_fetch_from_states a ps = map (remove_fetch_from_states_in_peer a) ps

-- `remove_fetch_from_states`, `list_del` and `free_fetch`, for the fetch at `a` of the peer at `p`
unfoldable pub drop_fetch : ℕ → ℕ → List Peer → List Peer
drop_fetch p a ps =
    update_peer p (λ q. record q { fetch_list = delete_fetch a q.fetch_list })
      (remove_fetch_from_states a ps)

-- `ids_equal`
unfoldable pub ids_equal : Json → Json → Bool
ids_equal (Json.number a _) (Json.number b _) = a == b
ids_equal (Json.string s) (Json.string t) = str_eq s t
ids_equal _ _ = false

-- `find_fetch`
unfoldable pub find_fetch : List Fetch → Json → Option Fetch
find_fetch [] id = none
find_fetch (f ∷ fs) id = elim f.fetch_id [
  | none ↦ find_fetch fs id
  | some i ↦ if ids_equal i id then some f else find_fetch fs id
]
