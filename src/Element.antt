-- ===== src/Element.antt =====
-- element.c: the states and methods of the peers, without `set_or_call`.
pub mod Change
pub mod Table
use cjet.Base.{
  ℕ, ◌+◌, Bool, true, false, not, ◌&&◌, ◌||◌, Option, none, some, List, [], ◌∷◌, ◌++◌, replicate,
  ◌==◌, is_some, if◌then◌else◌,
}
use cjet.Base.Str.{Str, codes, str_eq}
use cjet.Json.{Json, Platform}
use cjet.Groups.{AllGroups, get_groups}
use cjet.Response.{
  ErrorCode, create_error_response_from_request, create_success_response_from_request,
}
use cjet.State.{
  Fetch, Element, Peer, Io, World, attempt, find_peer, find_element, update_peer, update_element,
  delete_element, table_put, table_remove, element_table_get,
}
use cjet.Request.{
  element_or, Checked, ok, reply, ◌>>=◌, ◌>>◌, require, item_or, invalid_params, internal_error,
  invalid_params_for, internal_error_for, get_params, get_path_from_params,
  get_fetch_only_from_params, get_timeout_in_nsec, nonzero_timeout,
}
use cjet.Fetch.{notify_fetchers, find_fetchers_for_element}

-- `is_state`
unfoldable pub is_state : Element → Bool
is_state e = is_some e.value

-- `e` after a write to its value
unfoldable pub set_value : Json → Element → Element
set_value v e = record e { value = some v }

-- The element of a path, written back to the list of its owner
unfoldable pub store_element : Element → List Peer → List Peer
store_element e ps =
    update_peer e.peer (λ p. record p { element_list = update_element e p.element_list }) ps

unfoldable pub element_list_of : List Peer → ℕ → List Element
element_list_of ps a = elim (find_peer a ps) [ some q ↦ q.element_list | none ↦ [] ]

-- What `init_element` takes from the request before it allocates: path, flag, timeout and params
pub record ElementParams : Type 0 where
  pub path : Str
  pub fetch_only : Bool
  pub timeout_nsec : ℕ
  pub params : Json

module _ (g : Platform) where
  -- The group of an access object under a key: `none` if the node is there and is no array
  -- (`fill_fetch_groups`, `fill_set_groups`, `fill_call_groups`)
  unfoldable pub fill_groups : AllGroups → Json → Str → Option ℕ
  fill_groups all access key = elim (g.get_object_item access key) [
    | none ↦ some (get_groups all none)
    | some j ↦ elim j [ Json.array xs ↦ some (get_groups all (some (Json.array xs))) | _ ↦ none ]
  ]

  -- `fill_access`: the second group is that of the kind of the element
  unfoldable pub fill_access : AllGroups → Option Json → Element → Option Element
  unfolding fill_groups
  fill_access all none e = some e
  fill_access all (some access) e = elim (fill_groups all access (codes "fetchGroups")) [
    | none ↦ none
    | some fetch_groups ↦
        (let e1 = record e { fetch_groups = fetch_groups } in
          if is_state e
          then elim (fill_groups all access (codes "setGroups")) [
            | none ↦ none
            | some set_groups ↦ some (record e1 { set_groups = set_groups })
          ]
          else elim (fill_groups all access (codes "callGroups")) [
            | none ↦ none
            | some call_groups ↦ some (record e1 { call_groups = call_groups })
          ])
  ]

  unfoldable pub check_element : World → Json → Checked ElementParams
  check_element w request = do
    params ← get_params g request
    path ← get_path_from_params g request params
    fetch_only ← get_fetch_only_from_params g request params
    timeout ←
        get_timeout_in_nsec g request (g.get_object_item params (codes "timeout"))
          g.routed_messages_timeout
    timeout_nsec ← nonzero_timeout g timeout
    require (elim (element_table_get w path) [ none ↦ true | some _ ↦ false ])
        (invalid_params_for g request (codes "exists") path)
    ok (record {
      path = path;
      fetch_only = fetch_only;
      timeout_nsec = timeout_nsec;
      params = params;
    })

  -- The element that `init_element` fills in, before its access groups
  unfoldable pub new_element : ℕ → ElementParams → Element
  new_element p c = record {
    path = c.path;
    peer = p;
    value = g.get_object_item c.params (codes "value");
    fetcher_table = replicate g.initial_fetch_table_size none;
    fetch_groups = 0;
    set_groups = 0;
    call_groups = 0;
    fetch_only = c.fetch_only;
    timeout_nsec = c.timeout_nsec;
  }

  -- `init_element` from the allocations on. The table and the path are allocated, and the value is
  -- copied if there is one.
  unfoldable pub init_element : World → ℕ → Json → ElementParams → Io → Checked Element × Io
  unfolding new_element
  init_element w p request c io =
      let (ok1, io1) = attempt io in
      let (ok2, io2) = attempt io1 in
      let e = new_element p c in
      let (ok3, io3) = (if is_some e.value then attempt io2 else (true, io2)) in
      if not ok1
      then (reply (internal_error g request (codes "not enough memory to create fetch table")), io1)
      else if not ok2
      then (reply (internal_error g request (codes "not enough memory to copy path")), io2)
      else if not ok3
      then (reply (internal_error g request (codes "could not copy value object")), io3)
      else elim (fill_access w.all_groups (g.get_object_item c.params (codes "access")) e) [
        | none ↦ (reply (internal_error g request (codes "could not fill access information")), io3)
        | some e1 ↦ (ok e1, io3)
      ]

  -- `add_element_to_peer` after `init_element`: the fetches that match are told, then the element goes
  -- into the table, unless it is full, and into the list of its peer.
  unfoldable pub insert_element : World → Json → Element → Io → Option Json × World
  insert_element w request e io =
      let (ok1, e1, io1) = find_fetchers_for_element g w e io in
      let (ok2, io2) = attempt io1 in
      if not ok1
      then (
        internal_error g request (codes "could not notify fetching peer"),
        record w { io = io1 },
      )
      else if not ok2
      then (internal_error g request (codes "element table full"), record w { io = io2 })
      else (
        create_success_response_from_request g request,
        record w {
          peers =
              update_peer e1.peer (λ p. record p { element_list = p.element_list ++ (e1 ∷ []) })
                w.peers;
          element_table = table_put e1.path e1.peer w.element_table;
          io = io2;
        },
      )

  unfoldable pub insert_checked : World → Json → Checked Element × Io → Option Json × World
  unfolding insert_element
  insert_checked w request (reply r, io) = (r, record w { io = io })
  insert_checked w request (ok e, io) = insert_element w request e io

  unfoldable pub init_and_insert :
      World → ℕ → Json → Io → Checked ElementParams → Option Json × World
  unfolding insert_checked
  init_and_insert w p request io (reply r) = (r, record w { io = io })
  init_and_insert w p request io (ok c) = insert_checked w request (init_element w p request c io)

  unfoldable pub allocate_and_insert : World → ℕ → Json → Option Json × World
  unfolding init_and_insert check_element
  allocate_and_insert w p request =
      let (ok1, io1) = attempt w.io in
      if ok1 then init_and_insert w p request io1 (check_element w request) else (
        internal_error g request (codes "not enough memory to allocate jet element"),
        record w { io = io1 },
      )

  -- `p->is_local_connection`
  unfoldable pub is_local : List Peer → ℕ → Bool
  is_local ps a = elim (find_peer a ps) [ some q ↦ q.is_local_connection | none ↦ false ]

  -- `add_element_to_peer`
  unfoldable pub add_element_to_peer : World → ℕ → Json → Option Json × World
  unfolding allocate_and_insert
  add_element_to_peer w p request =
      if g.add_only_from_localhost && not (is_local w.peers p)
      then (
        create_error_response_from_request g request ErrorCode.invalid_request (codes "reason")
            (codes "add only allowed from localhost"),
        w,
      )
      else allocate_and_insert w p request

  -- The checks of `change_state`: the element and its new value
  unfoldable pub check_change : World → ℕ → Json → Checked (Element × Json)
  check_change w p request = do
    params ← get_params g request
    path ← get_path_from_params g request params
    value ← item_or g params (codes "value") (invalid_params g request (codes "no value found"))
    e ←
        element_or (element_table_get w path)
          (invalid_params_for g request (codes "not exists") path)
    require (e.peer == p) (invalid_params_for g request (codes "not owner of state") path)
    require (is_some e.value)
        (invalid_params_for g request (codes "change on method not possible") path)
    ok (e, value)

  -- `change_state` once the checks have passed: the value is replaced, and the fetchers are told
  unfoldable pub perform_change : World → Json → Checked (Element × Json) → Option Json × World
  perform_change w request (reply r) = (r, w)
  perform_change w request (ok (e, value)) =
      let (ok1, io1) = attempt w.io in
      let e1 = set_value value e in
      let (ok2, io2) = notify_fetchers e1 (codes "change") io1 in
      if ok1
      then (
        if ok2
            then create_success_response_from_request g request
            else internal_error_for g request (codes "could not notify fetching peer") e.path,
        record w { peers = store_element e1 w.peers; io = io2 },
      )
      else (internal_error_for g request (codes "not enough memory") e.path, record w { io = io1 })

  -- `change_state`
  unfoldable pub change_state : World → ℕ → Json → Option Json × World
  unfolding perform_change
  change_state w p request = perform_change w request (check_change w p request)

-- `remove_element`, whatever becomes of the notifications
unfoldable pub remove_element : Element → World → World
remove_element e w = record w {
  peers =
      update_peer e.peer (λ p. record p { element_list = delete_element e.path p.element_list })
        w.peers;
  element_table = table_remove e.path w.element_table;
  io = (notify_fetchers e (codes "remove") w.io).1;
}

module _ (g : Platform) where
  -- The checks of `remove_element_from_peer`, and its search of the list of the peer
  unfoldable pub check_remove : World → ℕ → Json → Checked Element
  check_remove w p request = do
    params ← get_params g request
    path ← get_path_from_params g request params
    element_or (find_element path (element_list_of w.peers p))
        (invalid_params_for g request (codes "not exists") path)

  unfoldable pub perform_remove : World → Json → Checked Element → Option Json × World
  perform_remove w request (reply r) = (r, w)
  perform_remove w request (ok e) =
      (create_success_response_from_request g request, remove_element e w)

  -- `remove_element_from_peer`
  unfoldable pub remove_element_from_peer : World → ℕ → Json → Option Json × World
  unfolding perform_remove
  remove_element_from_peer w p request = perform_remove w request (check_remove w p request)

-- The loop of `remove_all_elements_from_peer`
unfoldable pub remove_elements : List Element → World → World
remove_elements [] w = w
remove_elements (e ∷ es) w = remove_elements es (remove_element e w)

-- `remove_all_elements_from_peer`
unfoldable pub remove_all_elements_from_peer : World → ℕ → World
remove_all_elements_from_peer w p = remove_elements (element_list_of w.peers p) w
