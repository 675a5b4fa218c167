-- ===== src/Examples.antt =====
-- Concrete runs: a platform whose calls are evaluated, and a small daemon.
mod Runs
mod Frames
mod Texts
mod Upgrades
mod Requests
mod Heaps
mod Tables
mod Sockets
use cjet.Base.{
  ℕ, zero, suc, ◌+◌, Bool, true, false, Option, none, some, ◌≡◌, ◌≢◌, ◌↔◌, ◌⊎◌, refl, List, [], ◌∷◌,
  ◌++◌, arith, All, length, ◌<◌, ◌≤◌, ◌^◌, ◌*◌, if◌then◌else◌, is_some,
}
use cjet.Base.Str.{Str, codes, str_eq}
use cjet.Json.{Json, Items, Fields, Platform}
use cjet.Groups.{AllGroups, is_in_groups, get_groups, has_access, add_groups, group_bits}
use cjet.State.{
  MatchName, PathMatcher, Fetch, Element, Peer, Io, World, RoutingRequest, find_peer, table_get,
  element_table_get,
}

abbrev pub get_field : Fields → Str → Option Json
get_field Fields.end key = none
get_field (Fields.field k v fs) key = if str_eq k key then some v else get_field fs key

abbrev pub get_in : Json → Str → Option Json
get_in (Json.object fs) key = get_field fs key
get_in _ key = none

abbrev pub set_field : Fields → Str → Json → Fields
set_field Fields.end key v = Fields.end
set_field (Fields.field k x fs) key v =
    if str_eq k key then Fields.field k v fs else Fields.field k x (set_field fs key v)

abbrev pub set_in : Json → Str → Json → Json
set_in (Json.object fs) key v = Json.object (set_field fs key v)
set_in j key v = j

-- Doubles are taken as whole seconds here, and a password is its own encryption.
abbrev pub host : Platform
host = record {
  get_object_item = get_in;
  replace_item_in_object = set_in;
  create_number = λ n. Json.number n n;
  timeout_too_small = λ d. false;
  convert_seconds_to_nsec = λ d. d * 1000000000;
  format_pointer = λ a. codes "0x1";
  crypt = λ passwd salt. some passwd;
  add_only_from_localhost = false;
  initial_fetch_table_size = 4;
  max_numbers_of_matchers = 12;
  routed_messages_timeout = 5000000000;
}

abbrev pub quiet : Io
quiet = record { outcomes = []; sent = []; random = [] }

abbrev pub nothing : World
nothing = record {
  peers = [];
  element_table = [];
  all_groups = none;
  users = none;
  number_of_peers = 0;
  uuid = 0;
  next_addr = 1;
  io = quiet;
}

-- { "id": 1, "method": name, "params": params }
abbrev pub call_of : Str → Json → Json
call_of name params = Json.object (
    Fields.field (codes "id") (Json.number 1 1) (
      Fields.field (codes "method") (Json.string name)
        (Fields.field (codes "params") params Fields.end)))

abbrev pub add_a : Json
add_a = call_of (codes "add") (
    Json.object (
      Fields.field (codes "path") (Json.string (codes "a"))
        (Fields.field (codes "value") (Json.number 7 7) Fields.end)))

abbrev pub fetch_all : Json
fetch_all =
    call_of (codes "fetch")
      (Json.object (Fields.field (codes "id") (Json.string (codes "f")) Fields.end))

abbrev pub change_a : Json
change_a = call_of (codes "change") (
    Json.object (
      Fields.field (codes "path") (Json.string (codes "a"))
        (Fields.field (codes "value") (Json.number 8 8) Fields.end)))

abbrev pub set_a : Json
set_a = call_of (codes "set") (
    Json.object (
      Fields.field (codes "path") (Json.string (codes "a"))
        (Fields.field (codes "value") (Json.number 8 8) Fields.end)))

abbrev pub the_fetch : Fetch
the_fetch = record { addr = 10; fetch_id = some (Json.string (codes "f")); peer = 1; matcher = [] }

abbrev pub state_a : Element
state_a = record {
  path = codes "a";
  peer = 2;
  value = some (Json.number 7 7);
  fetcher_table = some the_fetch ∷ none ∷ [];
  fetch_groups = 0;
  set_groups = 0;
  call_groups = 0;
  fetch_only = false;
  timeout_nsec = 5000000000;
}

abbrev pub routed : RoutingRequest
routed = record {
  id = codes "1_0_0x";
  requesting_peer = 1;
  owner_peer = 2;
  origin_request_id = some (Json.number 1 1);
}

abbrev pub peer_at : ℕ → List Element → List Fetch → List RoutingRequest → Peer
peer_at a es fs rs = record {
  addr = a;
  element_list = es;
  fetch_list = fs;
  routing_table = rs;
  name = none;
  user_name = none;
  fetch_groups = 0;
  set_groups = 0;
  call_groups = 0;
  is_local_connection = true;
}

-- The peer at 1 fetches all; the peer at 2 owns the state "a", and has a request of the other one to answer.
abbrev pub busy : World
busy = record nothing {
  peers = peer_at 1 [] (the_fetch ∷ []) [] ∷ peer_at 2 (state_a ∷ []) [] (routed ∷ []) ∷ [];
  element_table = (codes "a", 2) ∷ [];
  number_of_peers = 2;
  next_addr = 11;
}

abbrev pub group_names : List Str
group_names = codes "admin" ∷ codes "users" ∷ []

abbrev pub one_group : Str → Items
one_group name = Items.cons (Json.string name) Items.nil
