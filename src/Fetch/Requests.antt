-- ===== src/Fetch/Requests.antt =====
-- The requests of fetch.c: fetch, unfetch and get, and the end of all fetches of a peer.
use cjet.Base.{
  ℕ, ◌+◌, true, false, not, Option, none, some, ◌⊎◌, inl, inr, List, [], ◌∷◌, ◌++◌, if◌then◌else◌,
}
use cjet.Base.Str.{codes}
use cjet.Json.{Json, Items, Fields, add_item, Platform}
use cjet.Groups.{AllGroups, has_access}
use cjet.Response.{create_success_response_from_request, create_result_response_from_request}
use cjet.State.{Fetch, Element, Peer, Io, World, attempt, find_peer, update_peer}
use cjet.Request.{
  Checked, ok, reply, ◌>>=◌, ◌>>◌, require, invalid_params, internal_error, get_params,
  get_fetch_id,
}
use cjet.Fetch.{find_fetch, drop_fetch, add_fetch_to_states, fetch_groups_of}
use cjet.Fetch.Matcher.{state_matches, create_fetch}

-- `list_add_tail (&f->next_fetch, &p->fetch_list)`
unfoldable pub append_fetch : Fetch → Peer → Peer
append_fetch f p = record p { fetch_list = p.fetch_list ++ (f ∷ []) }

-- `p->fetch_list` of the peer at an address
unfoldable pub fetch_list_of : List Peer → ℕ → List Fetch
fetch_list_of ps a = elim (find_peer a ps) [ some q ↦ q.fetch_list | none ↦ [] ]

module _ (g : Platform) where
  -- The checks of `add_fetch_to_peer` up to `create_fetch`
  unfoldable pub check_fetch : World → ℕ → Json → Checked (Json × Json)
  check_fetch w p request = do
    params ← get_params g request
    require (elim (g.get_object_item params (codes "match")) [ none ↦ true | some _ ↦ false ])
        (invalid_params g request (codes "No support for deprecated match"))
    id ← get_fetch_id g request params
    require (elim (find_fetch (fetch_list_of w.peers p) id) [ none ↦ true | some _ ↦ false ])
        (invalid_params g request (codes "fetch id already in use"))
    ok (id, params)

  -- The end of `add_fetch_to_peer`: a fetch that could be made goes into the list of its peer.
  unfoldable pub register_fetch :
      World → ℕ → (Fetch ⊎ Option Json) × Io → (Fetch ⊎ Option Json) × World
  register_fetch w p (inr response, io1) = (inr response, record w { io = io1 })
  register_fetch w p (inl f, io1) = (
    inl f,
    record w {
      peers = update_peer p (append_fetch f) w.peers;
      next_addr = w.next_addr + 1;
      io = io1;
    },
  )

  unfoldable pub make_fetch :
      World → ℕ → Json → Checked (Json × Json) → (Fetch ⊎ Option Json) × World
  make_fetch w p request (reply r) = (inr r, w)
  make_fetch w p request (ok (id, params)) =
      register_fetch w p (create_fetch g w.next_addr p request (some id) params w.io)

  -- `add_fetch_to_peer`: the new fetch, or the response
  unfoldable pub add_fetch_to_peer : World → ℕ → Json → (Fetch ⊎ Option Json) × World
  unfolding check_fetch make_fetch register_fetch
  add_fetch_to_peer w p request = elim (check_fetch w p request) [
    | reply r ↦ (inr r, w)
    | ok (id, params) ↦
        register_fetch w p (create_fetch g w.next_addr p request (some id) params w.io)
  ]

  unfoldable pub start_fetch : Json → (Fetch ⊎ Option Json) × World → Option Json × World
  start_fetch request (inr response, w) = (response, w)
  start_fetch request (inl f, w) = add_fetch_to_states g w request f

  -- `process_fetch` of parse.c
  unfoldable pub process_fetch : World → ℕ → Json → Option Json × World
  unfolding start_fetch
  process_fetch w p request = start_fetch request (add_fetch_to_peer w p request)

  unfoldable pub check_unfetch : World → ℕ → Json → Checked Fetch
  check_unfetch w p request = do
    params ← get_params g request
    id ← get_fetch_id g request params
    elim (find_fetch (fetch_list_of w.peers p) id) [
      | some f ↦ ok f
      | none ↦ reply (invalid_params g request (codes "fetch id not found for unfetch"))
    ]

  unfoldable pub perform_unfetch : World → ℕ → Json → Checked Fetch → Option Json × World
  perform_unfetch w p request (reply r) = (r, w)
  perform_unfetch w p request (ok f) = (
    create_success_response_from_request g request,
    record w { peers = drop_fetch p f.addr w.peers },
  )

  -- `remove_fetch_from_peer`
  unfoldable pub remove_fetch_from_peer : World → ℕ → Json → Option Json × World
  unfolding check_unfetch perform_unfetch
  remove_fetch_from_peer w p request = perform_unfetch w p request (check_unfetch w p request)

  -- `get_element`: the entry of an element that the peer may see, appended to the list. Its three
  -- allocations take one outcome, and a failure has the reason of the first.
  unfoldable pub get_element : AllGroups → ℕ → Fetch → Element → Items → Io → Option Items × Io
  get_element all wants f e states io =
      if not (has_access all e.fetch_groups wants)
      then (some states, io)
      else if state_matches e f
      then elim e.value [
        | none ↦ (some states, io)
        | some v ↦
            (let (ok1, io1) = attempt io in
              if ok1
              then (
                some (
                    add_item states (
                      Json.object (
                        Fields.field (codes "path") (Json.string e.path)
                          (Fields.field (codes "value") v Fields.end)))),
                io1,
              )
              else (none, io1))
      ]
      else (some states, io)

  -- `get_elements_in_peer`
  unfoldable pub get_elements_in_peer :
      AllGroups → ℕ → Fetch → List Element → Items → Io → Option Items × Io
  get_elements_in_peer all wants f [] states io = (some states, io)
  get_elements_in_peer all wants f (e ∷ es) states io =
      let (r, io1) = get_element all wants f e states io in
      elim r [ none ↦ (none, io1) | some states' ↦ get_elements_in_peer all wants f es states' io1 ]

  -- The loop of `get_elements` over the peers
  unfoldable pub get_elements_in_peers :
      AllGroups → ℕ → Fetch → List Peer → Items → Io → Option Items × Io
  get_elements_in_peers all wants f [] states io = (some states, io)
  get_elements_in_peers all wants f (p ∷ ps) states io =
      let (r, io1) = get_elements_in_peer all wants f p.element_list states io in
      elim r [
        | none ↦ (none, io1)
        | some states' ↦ get_elements_in_peers all wants f ps states' io1
      ]

  -- `get_elements` after `create_fetch`
  unfoldable pub answer_get : World → ℕ → Json → Fetch → Io → Option Json × World
  answer_get w p request f io =
      let (r, io1) =
        get_elements_in_peers w.all_groups (fetch_groups_of g w.peers p) f w.peers Items.nil io in
      elim r [
        | some states ↦ (
          create_result_response_from_request g request (Json.array states) (codes "result"),
          record w { io = io1 },
        )
        | none ↦ (
          internal_error g request (codes "could not allocate memory for state object"),
          record w { io = io1 },
        )
      ]

  -- `get_elements`; the fetch that it makes has no id and is freed at the end
  unfoldable pub get_elements : World → ℕ → Json → Option Json × World
  unfolding answer_get
  get_elements w p request = elim (get_params g request) [
    | reply r ↦ (r, w)
    | ok params ↦
        (let (r, io1) = create_fetch g w.next_addr p request none params w.io in
          elim r [
            | inr response ↦ (response, record w { io = io1 })
            | inl f ↦ answer_get w p request f io1
          ])
  ]

-- The loop of `remove_all_fetchers_from_peer` over the fetches of the peer at `p`
unfoldable pub drop_fetches : ℕ → List Fetch → List Peer → List Peer
drop_fetches p [] ps = ps
drop_fetches p (f ∷ fs) ps = drop_fetches p fs (drop_fetch p f.addr ps)

-- `remove_all_fetchers_from_peer`
unfoldable pub remove_all_fetchers_from_peer : World → ℕ → World
remove_all_fetchers_from_peer w p = record w {
  peers = drop_fetches p (fetch_list_of w.peers p) w.peers;
}
