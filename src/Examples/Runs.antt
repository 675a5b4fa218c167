-- ===== src/Examples/Runs.antt =====
-- The properties at concrete inputs.
use cjet.Base.{
  ℕ, ◌+◌, true, Option, none, some, ◌≡◌, ◌≢◌, ◌↔◌, ◌⊎◌, refl, List, [], ◌∷◌, ◌++◌, arith, All,
  length, ◌≤◌, if◌then◌else◌,
}
use cjet.Base.Str.{Str, codes, str_eq}
use cjet.Json.{Json, Fields}
use cjet.Groups.{is_in_groups, get_groups, has_access, add_groups, group_bits}
use cjet.Groups.Names.{mentions, has_access-shared_group, add_groups-bound}
use cjet.State.{
  MatchName, PathMatcher, Fetch, Element, World, attempt, find_peer, table_get, element_table_get,
  deref, find_element,
}
use cjet.Request.{ok, invalid_params_for}
use cjet.Utf8.{init_checker, is_byte_sequence_valid}
use cjet.Utf8.Scalar.{IsScalar, encode_all}
use cjet.Utf8.Correct.{is_byte_sequence_valid-iff-encode_all}
use cjet.Utf8.Chunks.{check_pieces, check_pieces-iff-encode_all}
use cjet.Fetch.{notify_fetchers, add_fetch_to_state, add_fetch_to_peers}
use cjet.Fetch.Matcher.{match_function}
use cjet.Fetch.Matching.{Matches, match_function_iff}
use cjet.Fetch.Notify.{with_sent, events, Added, notify_fetchers-sent, add_fetch_to_state-Added}
use cjet.Fetch.Told.{told_of_peers, add_fetch_to_peers-told}
use cjet.Element.{set_value, change_state, perform_change, remove_element}
use cjet.Element.Change.{change_state-others, perform_change-lookup}
use cjet.Element.Table.{remove_element-table}
use cjet.Router.{
  Kind, handle_routing_response, routing_table_of, route_get, route_put, routed_request_id,
}
use cjet.Router.SetOrCall.{set_or_call}
use cjet.Router.Granted.{Granted, set_or_call-Granted}
use cjet.Router.Answers.{answer, handle_routing_response-answers}
use cjet.Router.Ids.{IsPointer, routed_request_id_distinct}
use cjet.Authenticate.{check_user_and_password, handle_authentication}
use cjet.Authenticate.Password.{
  get_salt_from_passwd, method_of, salt_length, random_byte, fill_salt,
}
use cjet.Authenticate.Guards.{handle_authentication-fetching, get_salt_from_passwd-fits}
use cjet.Fetch.Requests.{fetch_list_of}
use cjet.Peer.{init_peer, free_peer_resources}
use cjet.Rpc.{parse_message, read_msg}
use cjet.Live.Peers.{SlotsLive, is_live, has_fetch}
use cjet.Live.Departure.{free_peer_resources-SlotsLive}
use cjet.Live.Methods.{Sound}
use cjet.Live.Messages.{parse_message-Sound}
use cjet.Live.Reach.{Step, Reaches, Reaches-SlotsLive}
use cjet.Examples.{
  host, quiet, nothing, fetch_all, change_a, set_a, the_fetch, state_a, routed, busy, group_names,
  one_group,
}

abbrev connected : World
connected = (init_peer true nothing).1

abbrev fetched : World
fetched = read_msg host Json.null (some (fetch_all, 3)) true 3 1 connected

Reaches-SlotsLive_example : SlotsLive fetched.peers
unfolding init_peer find_peer attempt
Reaches-SlotsLive_example = Reaches-SlotsLive host Json.null nothing fetched refl (
    Reaches.step (Reaches.step Reaches.stay (Step.connect true nothing))
      (Step.message (some (fetch_all, 3)) true 3 1 connected refl))

busy_slots : SlotsLive busy.peers
unfolding is_live has_fetch
busy_slots = (tt, (((refl, (tt, tt)), tt), tt))

parse_message-Sound_example :
    Sound 2 (parse_message host Json.null (some (change_a, 3)) true 3 2 busy).1.peers
unfolding find_peer
parse_message-Sound_example =
    parse_message-Sound host Json.null (some (change_a, 3)) true 3 2 busy (busy_slots, refl)

free_peer_resources-SlotsLive_example : SlotsLive (free_peer_resources host busy 1).peers
free_peer_resources-SlotsLive_example = free_peer_resources-SlotsLive host busy 1 busy_slots

-- "é"
is_byte_sequence_valid-iff-encode_all_example :
    ((is_byte_sequence_valid init_checker (0xC3 ∷ 0xA9 ∷ []) true).0 ≡ true)
    ↔ ((cs : List ℕ) × All IsScalar cs × ((0xC3 ∷ 0xA9 ∷ []) ≡ encode_all cs))
is_byte_sequence_valid-iff-encode_all_example =
    is_byte_sequence_valid-iff-encode_all (0xC3 ∷ 0xA9 ∷ []) (omega arith, (omega arith, tt))

-- An accented letter cut in two, and what follows it
check_pieces-iff-encode_all_example :
    (((check_pieces init_checker ((0xC3 ∷ []) ∷ []) (0xA9 ∷ 0x21 ∷ [])).0 ≡ true)
      ↔ ((cs : List ℕ) × All IsScalar cs × ((0xC3 ∷ 0xA9 ∷ 0x21 ∷ []) ≡ encode_all cs)))
    × ((check_pieces init_checker ((0xC3 ∷ []) ∷ []) (0xA9 ∷ 0x21 ∷ [])).1 ≡ init_checker)
check_pieces-iff-encode_all_example =
    check_pieces-iff-encode_all ((0xC3 ∷ []) ∷ []) (0xA9 ∷ 0x21 ∷ [])
      (omega arith, (omega arith, (omega arith, tt)))

has_access-shared_group_example :
    (has_access
        (some group_names)
        (get_groups (some group_names) (some (Json.array (one_group (codes "users")))))
        (get_groups (some group_names) (some (Json.array (one_group (codes "users")))))
      ≡ true)
    ↔ ((name : Str) × (is_in_groups group_names name ≡ true)
        × (mentions name (one_group (codes "users")) ≡ true)
        × (mentions name (one_group (codes "users")) ≡ true))
has_access-shared_group_example =
    has_access-shared_group group_names (one_group (codes "users")) (one_group (codes "users"))

add_groups-bound_example :
    length (add_groups group_names (Json.array (one_group (codes "guests")))).1 ≤ group_bits
add_groups-bound_example =
    add_groups-bound group_names (Json.array (one_group (codes "guests"))) (omega arith)

abbrev answer_7 : Json
answer_7 = Json.object (
    Fields.field (codes "id") (Json.string (codes "1_0_0x"))
      (Fields.field (codes "result") (Json.number 7 7) Fields.end))

handle_routing_response-answers_example :
    ((handle_routing_response host busy 2 answer_7 (Json.number 7 7) (codes "result")).0 ≡ true)
    × ((handle_routing_response host busy 2 answer_7 (Json.number 7 7) (codes "result")).1.io.sent
        ≡ busy.io.sent ++ answer host routed (Json.number 1 1) (Json.number 7 7) (codes "result"))
    × (route_get routed.id (
          routing_table_of
            (handle_routing_response host busy 2 answer_7
              (Json.number 7 7)
              (codes "result")).1.peers
            2)
        ≡ none)
unfolding routing_table_of find_peer route_put str_eq
handle_routing_response-answers_example =
    handle_routing_response-answers host busy 2 answer_7 (Json.number 7 7) (Json.number 1 1)
      (codes "result") routed [] refl refl refl refl

add_fetch_to_peers-told_example :
    ((add_fetch_to_peers host none 0 the_fetch busy.peers quiet).0 ≡ true)
    × ((add_fetch_to_peers host none 0 the_fetch busy.peers quiet).2
        ≡ with_sent (told_of_peers none 0 the_fetch busy.peers) quiet)
add_fetch_to_peers-told_example =
    add_fetch_to_peers-told host none 0 the_fetch busy.peers quiet refl (omega arith) refl
      (tt, ((omega arith, tt), tt))

set_or_call-Granted_example :
    ((set_or_call host busy 1 Kind.state set_a).1 ≡ busy)
    ⊎ ((e : Element) × Granted host busy 1 Kind.state set_a e)
set_or_call-Granted_example = set_or_call-Granted host busy 1 Kind.state set_a

abbrev starts_with_a : PathMatcher
starts_with_a = record {
  name = MatchName.starts_with;
  ignore_case = true;
  path_elements = codes "A" ∷ [];
}

match_function_iff_example :
    (match_function starts_with_a (codes "abc") ≡ true)
    ↔ Matches MatchName.starts_with true (codes "A" ∷ []) (codes "abc")
match_function_iff_example = match_function_iff starts_with_a (codes "abc")

change_state-others_example :
    find_peer 1 (change_state host busy 2 change_a).1.peers ≡ find_peer 1 busy.peers
change_state-others_example = change_state-others host busy 2 1 change_a (omega arith)

perform_change-lookup_example :
    element_table_get
      (perform_change host busy change_a (ok (state_a, Json.number 8 8))).1
      (codes "a")
    ≡ some (set_value (Json.number 8 8) state_a)
unfolding table_get element_table_get deref find_peer find_element str_eq
perform_change-lookup_example =
    perform_change-lookup host busy change_a (Json.number 8 8) state_a refl refl refl

remove_element-table_example :
    table_get (codes "a") (remove_element state_a busy).element_table
    ≡ (if str_eq state_a.path (codes "a") then none else table_get (codes "a") busy.element_table)
remove_element-table_example = remove_element-table state_a busy (codes "a")

notify_fetchers-sent_example :
    notify_fetchers state_a (codes "change") quiet
    ≡ (true, with_sent (events state_a (codes "change") state_a.fetcher_table) quiet)
notify_fetchers-sent_example =
    notify_fetchers-sent state_a (codes "change") quiet refl (refl, (tt, tt))

add_fetch_to_state-Added_example :
    (t : List (Option Fetch)) × (add_fetch_to_state host state_a the_fetch quiet
      ≡ (true, record state_a { fetcher_table = t }, quiet))
    × Added state_a.fetcher_table the_fetch t
add_fetch_to_state-Added_example =
    add_fetch_to_state-Added host state_a the_fetch quiet refl (omega arith) (omega arith)

host-IsPointer : IsPointer (codes "0x1")
host-IsPointer = (omega arith, (omega arith, (omega arith, (omega arith, tt))))

-- An id of the origin that looks like a number of the router
routed_request_id_distinct_example :
    routed_request_id host 0x78 1 (some (Json.string (codes "1_0x")))
    ≢ routed_request_id host 0x10 1 none
routed_request_id_distinct_example =
    routed_request_id_distinct host 0x78 0x10 1 1 (some (Json.string (codes "1_0x"))) none
      (omega arith) (omega arith) host-IsPointer host-IsPointer (omega arith)

handle_authentication-fetching_example :
    ((handle_authentication host busy 1 fetch_all).1 ≡ busy)
    × ((user password : Str)
        → check_user_and_password host fetch_all ≡ ok (user, password)
        → (handle_authentication host busy 1 fetch_all).0
          ≡ invalid_params_for host fetch_all (codes "fetched before authenticate") user)
unfolding fetch_list_of find_peer
handle_authentication-fetching_example = handle_authentication-fetching host busy 1 fetch_all refl

abbrev two_letters : Str
two_letters = b'a' ∷ b'a' ∷ b'$' ∷ []

get_salt_from_passwd-fits_example : length two_letters + 1 ≤ 22
unfolding get_salt_from_passwd method_of salt_length fill_salt random_byte
get_salt_from_passwd-fits_example = get_salt_from_passwd-fits (codes "x") quiet two_letters refl
