-- ===== src/Fetch/Slots.antt =====
-- The ways in which fetch.c writes to the fetcher tables of elements, for fetches that satisfy `L` (of
-- their addresses).
use cjet.Base.{
  ℕ, Bool, true, false, Option, none, some, ◌≡◌, ◌≢◌, List, [], ◌∷◌, map, length, take, replicate,
  ◌==◌, arith, All, All-append, Bool-cases, ◌⊎◌, inl, inr, if◌then◌else◌, zero, suc,
}
use cjet.Json.{Platform}
use cjet.Groups.{AllGroups}
use cjet.State.{Fetch, Element, Peer, Io}
use cjet.Fetch.{
  fill_slot, grow_table, new_table_size, add_fetch_to_state, add_fetch_to_state_and_notify,
  add_fetch_to_states_in_peer, add_fetch_to_peers, find_fetchers_for_element_in_peer,
  find_fetchers_in_peers, clear_slots, remove_fetch_from_state, remove_fetch_from_states,
  remove_fetch_from_states_in_peer,
}

module _ (L : ℕ → Bool) where
  abbrev pub SlotHolds : Option Fetch → Type 0
  SlotHolds none = Unit
  SlotHolds (some f) = L f.addr ≡ true

  abbrev pub ElementHolds : Element → Type 0
  ElementHolds e = All SlotHolds e.fetcher_table

  abbrev pub PeerHolds : Peer → Type 0
  PeerHolds p = All ElementHolds p.element_list

  take-holds : (n : ℕ) (t : List (Option Fetch)) → All SlotHolds t → All SlotHolds (take n t)
  take-holds zero t h = tt
  take-holds (suc n) [] h = tt
  take-holds (suc n) (x ∷ t) h = (h.0, take-holds n t h.1)

  replicate-holds : (n : ℕ) → All SlotHolds (replicate n none)
  replicate-holds zero = tt
  replicate-holds (suc n) = (tt, replicate-holds n)

  grow_table-holds :
      (n : ℕ) (t : List (Option Fetch)) → All SlotHolds t → All SlotHolds (grow_table n t)
  unfolding grow_table
  grow_table-holds n t h = All-append SlotHolds _ _ (take-holds n t h) (replicate-holds _)

  abbrev FilledHolds : Option (List (Option Fetch)) → Type 0
  FilledHolds none = Unit
  FilledHolds (some t) = All SlotHolds t

  behind-holds :
      (x : Fetch) (r : Option (List (Option Fetch)))
      → L x.addr ≡ true
      → FilledHolds r
      → FilledHolds (elim r [ some t' ↦ some (some x ∷ t') | none ↦ none ])
  behind-holds x none l h = tt
  behind-holds x (some t) l h = (l, h)

  fill_slot-holds :
      (t : List (Option Fetch)) (f : Fetch)
      → L f.addr ≡ true
      → All SlotHolds t
      → FilledHolds (fill_slot t f)
  unfolding fill_slot
  fill_slot-holds [] f l h = tt
  fill_slot-holds (none ∷ t) f l h = (l, h.1)
  fill_slot-holds (some x ∷ t) f l h =
      behind-holds x (fill_slot t f) h.0 (fill_slot-holds t f l h.1)

  pub add_fetch_to_state-holds :
      (g : Platform) (e : Element) (f : Fetch) (io : Io)
      → L f.addr ≡ true
      → ElementHolds e
      → ElementHolds (add_fetch_to_state g e f io).1
  unfolding add_fetch_to_state
  add_fetch_to_state-holds g e f io l h = ground (
    arith,
    fill_slot-holds e.fetcher_table f l h,
    grow_table-holds (new_table_size g (length e.fetcher_table)) e.fetcher_table h,
    fill_slot-holds (grow_table (new_table_size g (length e.fetcher_table)) e.fetcher_table) f l
        (grow_table-holds (new_table_size g (length e.fetcher_table)) e.fetcher_table h),
  )

  pub add_fetch_to_state_and_notify-holds :
      (g : Platform) (all : AllGroups) (wants : ℕ) (e : Element) (f : Fetch) (io : Io)
      → L f.addr ≡ true
      → ElementHolds e
      → ElementHolds (add_fetch_to_state_and_notify g all wants e f io).1
  unfolding add_fetch_to_state_and_notify
  add_fetch_to_state_and_notify-holds g all wants e f io l h =
      ground (arith, add_fetch_to_state-holds g e f io l h)

  pub add_fetch_to_states_in_peer-holds :
      (g : Platform) (all : AllGroups) (wants : ℕ) (f : Fetch) (es : List Element) (io : Io)
      → L f.addr ≡ true
      → All ElementHolds es
      → All ElementHolds (add_fetch_to_states_in_peer g all wants f es io).1
  unfolding add_fetch_to_states_in_peer
  add_fetch_to_states_in_peer-holds g all wants f [] io l h = tt
  add_fetch_to_states_in_peer-holds g all wants f (e ∷ es) io l h =
      let (ok, e1, io1) = add_fetch_to_state_and_notify g all wants e f io in
      ground (
        arith,
        add_fetch_to_state_and_notify-holds g all wants e f io l h.0,
        add_fetch_to_states_in_peer-holds g all wants f es io1 l h.1,
      )

  pub add_fetch_to_peers-holds :
      (g : Platform) (all : AllGroups) (wants : ℕ) (f : Fetch) (ps : List Peer) (io : Io)
      → L f.addr ≡ true
      → All PeerHolds ps
      → All PeerHolds (add_fetch_to_peers g all wants f ps io).1
  unfolding add_fetch_to_peers
  add_fetch_to_peers-holds g all wants f [] io l h = tt
  add_fetch_to_peers-holds g all wants f (p ∷ ps) io l h =
      let (ok, es, io1) = add_fetch_to_states_in_peer g all wants f p.element_list io in
      ground (
        arith,
        add_fetch_to_states_in_peer-holds g all wants f p.element_list io l h.0,
        add_fetch_to_peers-holds g all wants f ps io1 l h.1,
      )

  -- The fetches of a list satisfy `L`.
  abbrev pub FetchesHold : List Fetch → Type 0
  FetchesHold fs = All (λ f. L f.addr ≡ true) fs

  pub find_fetchers_for_element_in_peer-holds :
      (g : Platform) (all : AllGroups) (wants : ℕ) (fs : List Fetch) (e : Element) (io : Io)
      → FetchesHold fs
      → ElementHolds e
      → ElementHolds (find_fetchers_for_element_in_peer g all wants fs e io).1
  unfolding find_fetchers_for_element_in_peer
  find_fetchers_for_element_in_peer-holds g all wants [] e io l h = h
  find_fetchers_for_element_in_peer-holds g all wants (f ∷ fs) e io l h =
      let (ok, e1, io1) = add_fetch_to_state_and_notify g all wants e f io in
      let step = add_fetch_to_state_and_notify-holds g all wants e f io l.0 h in
      ground (arith, step, find_fetchers_for_element_in_peer-holds g all wants fs e1 io1 l.1 step)

  pub find_fetchers_in_peers-holds :
      (g : Platform) (all : AllGroups) (ps : List Peer) (e : Element) (io : Io)
      → All (λ p. FetchesHold p.fetch_list) ps
      → ElementHolds e
      → ElementHolds (find_fetchers_in_peers g all ps e io).1
  unfolding find_fetchers_in_peers
  find_fetchers_in_peers-holds g all [] e io l h = h
  find_fetchers_in_peers-holds g all (p ∷ ps) e io l h =
      let (ok, e1, io1) =
        find_fetchers_for_element_in_peer g all p.fetch_groups p.fetch_list e io in
      let step =
        find_fetchers_for_element_in_peer-holds g all p.fetch_groups p.fetch_list e io l.0 h in
      ground (arith, step, find_fetchers_in_peers-holds g all ps e1 io1 l.1 step)

-- After the slots of an address are cleared, the other slots are as before.
clear_slots-holds :
    (L M : ℕ → Bool) (a : ℕ)
    → ((b : ℕ) → L b ≡ true → b ≢ a → M b ≡ true)
    → (t : List (Option Fetch)) → All (SlotHolds L) t
    → All (SlotHolds M) (clear_slots a t)
unfolding clear_slots
clear_slots-holds L M a w [] h = tt
clear_slots-holds L M a w (none ∷ t) h = (tt, clear_slots-holds L M a w t h.1)
clear_slots-holds L M a w (some f ∷ t) h =
    (slot (Bool-cases (f.addr == a)), clear_slots-holds L M a w t h.1)
  where
    slot :
        ((f.addr == a) ≡ true) ⊎ ((f.addr == a) ≡ false)
        → SlotHolds M (if f.addr == a then none else some f)
    slot (inl e) = rw e tt
    slot (inr e) = rw e (w f.addr h.0 (ground arith))

remove_fetch_from_states_in_peer-holds :
    (L M : ℕ → Bool) (a : ℕ)
    → ((b : ℕ) → L b ≡ true → b ≢ a → M b ≡ true)
    → (es : List Element) → All (ElementHolds L) es
    → All (ElementHolds M) (map (remove_fetch_from_state a) es)
unfolding remove_fetch_from_state
remove_fetch_from_states_in_peer-holds L M a w [] h = tt
remove_fetch_from_states_in_peer-holds L M a w (e ∷ es) h = (
  clear_slots-holds L M a w e.fetcher_table h.0,
  remove_fetch_from_states_in_peer-holds L M a w es h.1,
)

pub remove_fetch_from_states-holds :
    (L M : ℕ → Bool) (a : ℕ)
    → ((b : ℕ) → L b ≡ true → b ≢ a → M b ≡ true)
    → (ps : List Peer) → All (PeerHolds L) ps
    → All (PeerHolds M) (remove_fetch_from_states a ps)
unfolding remove_fetch_from_states remove_fetch_from_states_in_peer
remove_fetch_from_states-holds L M a w [] h = tt
remove_fetch_from_states-holds L M a w (p ∷ ps) h = (
  remove_fetch_from_states_in_peer-holds L M a w p.element_list h.0,
  remove_fetch_from_states-holds L M a w ps h.1,
)
