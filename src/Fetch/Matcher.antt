-- ===== src/Fetch/Matcher.antt =====
-- The match functions of fetch.c, and the construction of a fetch from the path object of a request.
use cjet.Base.{
  ℕ, ◌+◌, ◌-◌, ◌^◌, ◌%◌, Bool, true, false, not, ◌&&◌, Option, none, some, ◌⊎◌, inl, inr, List, [],
  ◌∷◌, length, drop, set, replicate, ltb, leb, ◌==◌, if◌then◌else◌,
}
use cjet.Base.Str.{
  Str, codes, str_eq, strn_eq, has_substring, strcase_eq, strncase_eq, has_substring_ignore_case,
}
use cjet.Json.{Json, Items, Fields, fields_size, Platform}
use cjet.Response.{ErrorCode, create_error_response_from_request}
use cjet.State.{MatchName, PathMatcher, Fetch, Element, Io, attempt}

-- `pm->path_elements[0]`
unfoldable pub first_element : List Str → Str
first_element [] = []
first_element (s ∷ ss) = s

-- `startswith_match` and `startswith_match_ignore_case`
unfoldable pub startswith_match : Bool → Str → Str → Bool
startswith_match false s state_path = strn_eq (length s) s state_path
startswith_match true s state_path = strncase_eq (length s) s state_path

-- `equals_match` and `equals_match_ignore_case`
unfoldable pub equals_match : Bool → Str → Str → Bool
equals_match false s state_path = str_eq s state_path
equals_match true s state_path = strcase_eq s state_path

-- `endswith_match` and `endswith_match_ignore_case`
unfoldable pub endswith_match : Bool → Str → Str → Bool
unfolding equals_match
endswith_match ignore s state_path =
    leb (length s) (length state_path)
    && equals_match ignore (drop (length state_path - length s) state_path) s

-- `contains_match` and `contains_match_ignore_case`
unfoldable pub contains_match : Bool → Str → Str → Bool
contains_match false s state_path = has_substring state_path s
contains_match true s state_path = has_substring_ignore_case state_path s

-- `containsallof_match` and `containsallof_match_ignore_case`
unfoldable pub containsallof_match : Bool → List Str → Str → Bool
containsallof_match ignore [] state_path = true
containsallof_match ignore (s ∷ ss) state_path =
    contains_match ignore s state_path && containsallof_match ignore ss state_path

-- The table `matchers`: the function in the row of the name and the column of the flag
unfoldable pub match_by : MatchName → Bool → List Str → Str → Bool
match_by MatchName.equals ignore ss state_path = equals_match ignore (first_element ss) state_path
match_by MatchName.contains ignore ss state_path =
    contains_match ignore (first_element ss) state_path
match_by MatchName.starts_with ignore ss state_path =
    startswith_match ignore (first_element ss) state_path
match_by MatchName.ends_with ignore ss state_path =
    endswith_match ignore (first_element ss) state_path
match_by MatchName.equals_not ignore ss state_path =
    not (equals_match ignore (first_element ss) state_path)
match_by MatchName.contains_all_of ignore ss state_path = containsallof_match ignore ss state_path

-- `pm->match_function (pm, state_path)`
unfoldable pub match_function : PathMatcher → Str → Bool
unfolding match_by
match_function pm state_path = match_by pm.name pm.ignore_case pm.path_elements state_path

-- The loop of `state_matches`. An empty slot after the first is a null pointer that the code calls
-- through; the model answers `false` there.
unfoldable pub all_match : List (Option PathMatcher) → Str → Bool
all_match [] path = true
all_match (some pm ∷ ms) path = match_function pm path && all_match ms path
all_match (none ∷ ms) path = false

-- `state_matches`
unfoldable pub state_matches : Element → Fetch → Bool
state_matches e f = elim f.matcher [
  | [] ↦ true
  | m ∷ ms ↦ elim m [ none ↦ true | some pm ↦ all_match (some pm ∷ ms) e.path ]
]

-- `strcmp (matcher->string, matchers[i].matcher_name)`, in the order of the table
unfoldable pub find_match_name : Str → Option MatchName
find_match_name s =
    if str_eq s (codes "equals")
    then some MatchName.equals
    else if str_eq s (codes "contains")
    then some MatchName.contains
    else if str_eq s (codes "startsWith")
    then some MatchName.starts_with
    else if str_eq s (codes "endsWith")
    then some MatchName.ends_with
    else if str_eq s (codes "equalsNot")
    then some MatchName.equals_not
    else if str_eq s (codes "containsAllOf")
    then some MatchName.contains_all_of
    else none

-- The loop of `fill_path_elements`, for an array of strings
unfoldable pub fill_path_elements : Items → Io → Option (List Str) × Io
fill_path_elements Items.nil io = (some [], io)
fill_path_elements (Items.cons (Json.string s) items) io =
    let (ok, io1) = attempt io in
    elim ok [
      | false ↦ (none, io1)
      | true ↦
          (let (r, io2) = fill_path_elements items io1 in
            elim r [ none ↦ (none, io2) | some ss ↦ (some (s ∷ ss), io2) ])
    ]
fill_path_elements (Items.cons _ items) io = (none, io)

-- The body of `create_matcher` for a row of the table: the type of the node is checked, the matcher
-- allocated and its elements copied. Without any element, the size of the matcher wraps to about 32 GB,
-- which the heap of the daemon is taken not to have.
unfoldable pub make_matcher : MatchName → Json → Bool → Io → Option PathMatcher × Io
make_matcher MatchName.contains_all_of (Json.array Items.nil) ignore_case io =
    (none, (attempt io).1)
make_matcher MatchName.contains_all_of (Json.array (Items.cons i items)) ignore_case io =
    let (ok, io1) = attempt io in
    if ok
    then (let (r, io2) = fill_path_elements (Items.cons i items) io1 in
        elim r [
          | none ↦ (none, io2)
          | some ss ↦ (
            some (record {
              name = MatchName.contains_all_of;
              ignore_case = ignore_case;
              path_elements = ss;
            }),
            io2,
          )
        ])
    else (none, io1)
make_matcher MatchName.contains_all_of _ ignore_case io = (none, io)
make_matcher name (Json.string s) ignore_case io =
    let (ok, io1) = attempt io in
    let (ok', io2) = attempt io1 in
    if ok
    then (if ok'
        then (some (record { name = name; ignore_case = ignore_case; path_elements = s ∷ [] }), io2)
        else (none, io2))
    else (none, io1)
make_matcher name _ ignore_case io = (none, io)

-- `create_matcher`
unfoldable pub create_matcher : Str → Json → Bool → Io → Option PathMatcher × Io
create_matcher key matcher ignore_case io = elim (find_match_name key) [
  | none ↦ (none, io)
  | some name ↦ make_matcher name matcher ignore_case io
]

-- The loop of `add_matchers`: matchers are written at `match_index`, which the option does not move.
unfoldable pub add_matchers :
    Fields → ℕ → Bool → List (Option PathMatcher) → Io → Option (List (Option PathMatcher)) × Io
add_matchers Fields.end match_index ignore_case slots io = (some slots, io)
add_matchers (Fields.field key matcher fs) match_index ignore_case slots io =
    if strn_eq 16 key (codes "caseInsensitive")
    then add_matchers fs match_index ignore_case slots io
    else (let (r, io1) = create_matcher key matcher ignore_case io in
        elim r [
          | none ↦ (none, io1)
          | some pm ↦
              add_matchers fs (match_index + 1) ignore_case (set slots match_index (some pm)) io1
        ])

-- `alloc_fetch`, at the address `addr`: the slots of the matchers are zero. The object and the copy
-- of the id are allocated; on failure the reason is given.
unfoldable pub alloc_fetch : ℕ → ℕ → Option Json → ℕ → Io → (Fetch ⊎ Str) × Io
alloc_fetch addr p id number_of_matchers io =
    let (ok, io1) = attempt io in
    let (ok', io2) = attempt io1 in
    let f : Fetch = record {
      addr = addr;
      fetch_id = id;
      peer = p;
      matcher = replicate number_of_matchers none;
    } in
    if ok
    then elim id [
      | none ↦ (inl f, io1)
      | some _ ↦
          if ok'
          then (inl f, io2)
          else (inr (codes "Could not allocated memory for fetch ID object!"), io2)
    ]
    else (inr (codes "Could not allocated memory for fetch object!"), io1)

module _ (g : Platform) where
  abbrev invalid : Json → Str → Option Json
  invalid request reason =
      create_error_response_from_request g request ErrorCode.invalid_params (codes "reason") reason

  abbrev internal : Json → Str → Option Json
  internal request reason =
      create_error_response_from_request g request ErrorCode.internal_error (codes "reason") reason

  -- `number_of_matchers` of `create_fetch`: the fields of the path object less the option, as an
  -- `unsigned int`
  unfoldable pub number_of_matchers : Json → Fields → ℕ
  number_of_matchers path fs = elim (g.get_object_item path (codes "caseInsensitive")) [
    | some _ ↦ (fields_size fs + (2 ^ 32 - 1)) % 2 ^ 32
    | none ↦ fields_size fs
  ]

  unfoldable pub ignores_case : Json → Bool
  ignores_case path = elim (g.get_object_item path (codes "caseInsensitive")) [
    | some j ↦ elim j [ Json.boolean b ↦ b | _ ↦ false ]
    | none ↦ false
  ]

  -- `create_fetch` from the allocation on, for a path object whose matchers are counted
  unfoldable pub fill_fetch :
      ℕ → ℕ → Json → Option Json → Bool → Fields → ℕ → Io → (Fetch ⊎ Option Json) × Io
  fill_fetch addr p request id ignore_case fs number io =
      let (r, io1) = alloc_fetch addr p id number io in
      elim r [
        | inr _ ↦ (inr (internal request (codes "not enough memory to allocate fetch")), io1)
        | inl f ↦
            (let (m, io2) = add_matchers fs 0 ignore_case f.matcher io1 in
              elim m [
                | none ↦ (inr (internal request (codes "could not add matchers to fetch")), io2)
                | some slots ↦ (inl (record f { matcher = slots }), io2)
              ])
      ]

  unfoldable pub create_fetch_from_path :
      ℕ → ℕ → Json → Option Json → Json → Io → (Fetch ⊎ Option Json) × Io
  unfolding number_of_matchers ignores_case fill_fetch
  create_fetch_from_path addr p request id (Json.object fs) io =
      let number = number_of_matchers (Json.object fs) fs in
      if number == 0
      then (inr (invalid request (codes "no matcher in path object")), io)
      else if ltb g.max_numbers_of_matchers number
      then (inr (invalid request (codes "too many matchers in path object")), io)
      else fill_fetch addr p request id (ignores_case (Json.object fs)) fs number io
  create_fetch_from_path addr p request id _ io =
      (inr (invalid request (codes "fetch path is not an object")), io)

  -- `create_fetch`: a fetch at the address `addr` for the peer `p`, or the response
  unfoldable pub create_fetch : ℕ → ℕ → Json → Option Json → Json → Io → (Fetch ⊎ Option Json) × Io
  unfolding create_fetch_from_path
  create_fetch addr p request id params io = elim (g.get_object_item params (codes "path")) [
    | some path ↦ create_fetch_from_path addr p request id path io
    | none ↦
        (let (r, io1) = alloc_fetch addr p id 1 io in
          elim r [ inl f ↦ (inl f, io1) | inr reason ↦ (inr (invalid request reason), io1) ])
  ]
