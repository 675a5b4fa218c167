-- ===== src/Fetch/Told.antt =====
-- The "add" events of a new fetch (`add_fetch_to_states` of fetch.c), against a list of them.
use cjet.Base.{
  ℕ, ◌*◌, ◌^◌, ◌<◌, Bool, true, ◌&&◌, is_some, ◌≡◌, List, [], ◌∷◌, ◌++◌, length, if◌then◌else◌,
  arith, All, append-nil, append_assoc,
}
use cjet.Base.Str.{codes}
use cjet.Json.{Json, Platform}
use cjet.Groups.{AllGroups, has_access}
use cjet.State.{Fetch, Element, Peer, Io}
use cjet.Fetch.{
  event_message, event_params, add_fetch_to_state_and_notify, add_fetch_to_states_in_peer,
  add_fetch_to_peers,
}
use cjet.Fetch.Matcher.{state_matches}
use cjet.Fetch.Notify.{with_sent, event_for, notify_fetching_peer-sent, add_fetch_to_state-Added}

-- The peer of the fetch may see the element, and the fetch matches it.
unfoldable pub selects : AllGroups → ℕ → Fetch → Element → Bool
selects all wants f e = has_access all e.fetch_groups wants && state_matches e f

unfoldable pub told : AllGroups → ℕ → Fetch → List Element → List (ℕ × Json)
told all wants f [] = []
told all wants f (e ∷ es) =
    (if selects all wants f e then event_for e (codes "add") f else []) ++ told all wants f es

unfoldable pub told_of_peers : AllGroups → ℕ → Fetch → List Peer → List (ℕ × Json)
told_of_peers all wants f [] = []
told_of_peers all wants f (p ∷ ps) = told all wants f p.element_list ++ told_of_peers all wants f ps

-- The table can double in 32 bits.
abbrev pub CanGrow : Element → Type 0
CanGrow e = length e.fetcher_table * 2 < 2 ^ 32

module _ (g : Platform) (all : AllGroups) (wants : ℕ) (f : Fetch) where
  one-told :
      (e : Element) (io : Io)
      → io.outcomes ≡ []
      → 0 < g.initial_fetch_table_size
      → is_some f.fetch_id ≡ true
      → CanGrow e
      → ((add_fetch_to_state_and_notify g all wants e f io).0 ≡ true)
        × ((add_fetch_to_state_and_notify g all wants e f io).2
            ≡ with_sent (if selects all wants f e then event_for e (codes "add") f else []) io)
  unfolding add_fetch_to_state_and_notify selects event_message event_params
  one-told e io clear pos id small =
      let (t, done, added) = add_fetch_to_state-Added g e f io clear pos small in
      ground (
        arith,
        done,
        append-nil io.sent,
        notify_fetching_peer-sent (record e { fetcher_table = t }) f (codes "add") io clear id,
      )

  told-elements :
      (es : List Element) (io : Io)
      → io.outcomes ≡ []
      → 0 < g.initial_fetch_table_size
      → is_some f.fetch_id ≡ true
      → All CanGrow es
      → ((add_fetch_to_states_in_peer g all wants f es io).0 ≡ true)
        × ((add_fetch_to_states_in_peer g all wants f es io).2 ≡ with_sent (told all wants f es) io)
  unfolding add_fetch_to_states_in_peer told
  told-elements [] io clear pos id small = ground (arith, append-nil io.sent)
  told-elements (e ∷ es) io clear pos id small =
      let first = if selects all wants f e then event_for e (codes "add") f else [] in
      ground (
        arith,
        one-told e io clear pos id small.0,
        told-elements es (with_sent first io) clear pos id small.1,
        append_assoc io.sent first (told all wants f es),
      )

  -- With no failures ahead and room in 32-bit table sizes, a new fetch gets exactly one add event
  -- for each element that its peer may see and that it matches, in the order of peers and
  -- elements.
  pub add_fetch_to_peers-told :
      (ps : List Peer) (io : Io)
      → io.outcomes ≡ []
      → 0 < g.initial_fetch_table_size
      → is_some f.fetch_id ≡ true
      → All (λ p. All CanGrow p.element_list) ps
      → ((add_fetch_to_peers g all wants f ps io).0 ≡ true)
        × ((add_fetch_to_peers g all wants f ps io).2 ≡ with_sent (told_of_peers all wants f ps) io)
  unfolding add_fetch_to_peers told_of_peers
  add_fetch_to_peers-told [] io clear pos id small = ground (arith, append-nil io.sent)
  add_fetch_to_peers-told (p ∷ ps) io clear pos id small =
      let first = told all wants f p.element_list in
      ground (
        arith,
        told-elements p.element_list io clear pos id small.0,
        add_fetch_to_peers-told ps (with_sent first io) clear pos id small.1,
        append_assoc io.sent first (told_of_peers all wants f ps),
      )
