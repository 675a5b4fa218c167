-- ===== src/Fetch/Notify.antt =====
-- The messages of `notify_fetchers` and the slots of `add_fetch_to_state` in fetch.c, when no failure is
-- ahead.
use cjet.Base.{
  ℕ, zero, suc, ◌-◌, ◌*◌, ◌^◌, ◌%◌, max, ◌<◌, ◌≤◌, Bool, true, false, ◌||◌, Option, none, some,
  is_some, ◌≡◌, refl, List, [], ◌∷◌, ◌++◌, length, take, replicate, ◌==◌, arith, All, ◌∙◌, ap,
  append-nil, append_assoc, Option-cases, inl, inr,
}
use mathlib.Core.Path.{subst}
use cjet.Base.Str.{Str}
use cjet.Json.{Json, Platform}
use cjet.State.{Fetch, Element, Io, attempt, send_message}
use cjet.Fetch.{
  event_message, notify_fetching_peer, notify_table, notify_fetchers, fill_slot, grow_table,
  new_table_size, add_fetch_to_state,
}

-- `io` after these messages
abbrev pub with_sent : List (ℕ × Json) → Io → Io
with_sent ms io = record io { sent = io.sent ++ ms }

-- A fetch of `add_fetch_to_peer` has an id.
abbrev pub HasId : Option Fetch → Type 0
HasId none = Unit
HasId (some f) = is_some f.fetch_id ≡ true

-- The event for the peer of a fetch
abbrev pub event_for : Element → Str → Fetch → List (ℕ × Json)
event_for e event_name f = elim f.fetch_id [
  | some id ↦ (f.peer, event_message id e event_name) ∷ []
  | none ↦ []
]

-- One event for each fetch of a table, in the order of the slots
abbrev pub events : Element → Str → List (Option Fetch) → List (ℕ × Json)
events e event_name [] = []
events e event_name (none ∷ t) = events e event_name t
events e event_name (some f ∷ t) = event_for e event_name f ++ events e event_name t

pub notify_fetching_peer-sent :
    (e : Element) (f : Fetch) (event_name : Str) (io : Io)
    → io.outcomes ≡ []
    → is_some f.fetch_id ≡ true
    → notify_fetching_peer e f event_name io ≡ (true, with_sent (event_for e event_name f) io)
unfolding notify_fetching_peer send_message attempt
notify_fetching_peer-sent e f event_name io clear id = ground arith

notify_table-sent :
    (e : Element) (event_name : Str) (t : List (Option Fetch)) (io : Io)
    → io.outcomes ≡ []
    → All HasId t
    → notify_table e event_name t io ≡ (true, with_sent (events e event_name t) io)
unfolding notify_table
notify_table-sent e event_name [] io clear h = ground (arith, append-nil io.sent)
notify_table-sent e event_name (none ∷ t) io clear h = notify_table-sent e event_name t io clear h.1
notify_table-sent e event_name (some f ∷ t) io clear h =
    let io1 = with_sent (event_for e event_name f) io in
    ground (
      arith,
      notify_fetching_peer-sent e f event_name io clear h.0,
      notify_table-sent e event_name t io1 clear h.1,
      append_assoc io.sent (event_for e event_name f) (events e event_name t),
    )

-- With no failures ahead and ids in all fetches, notify_fetchers sends one event for each entry of
-- the table, in its order, and succeeds.
pub notify_fetchers-sent :
    (e : Element) (event_name : Str) (io : Io)
    → io.outcomes ≡ []
    → All HasId e.fetcher_table
    → notify_fetchers e event_name io ≡ (true, with_sent (events e event_name e.fetcher_table) io)
unfolding notify_fetchers
notify_fetchers-sent e event_name io clear h =
    notify_table-sent e event_name e.fetcher_table io clear h

-- Whether a slot holds the fetch at this address
abbrev pub has_slot : ℕ → List (Option Fetch) → Bool
has_slot a [] = false
has_slot a (none ∷ t) = has_slot a t
has_slot a (some f ∷ t) = f.addr == a || has_slot a t

abbrev FilledWith : List (Option Fetch) → Fetch → Option (List (Option Fetch)) → Type 0
FilledWith t f none = Unit
FilledWith t f (some t') = (b : ℕ) → has_slot b t' ≡ f.addr == b || has_slot b t

fill_slot-has_slot : (t : List (Option Fetch)) (f : Fetch) → FilledWith t f (fill_slot t f)
unfolding fill_slot
fill_slot-has_slot [] f = tt
fill_slot-has_slot (none ∷ t) f = λ b. refl
fill_slot-has_slot (some x ∷ t) f = behind (fill_slot t f) (fill_slot-has_slot t f)
  where
    behind :
        (r : Option (List (Option Fetch)))
        → FilledWith t f r
        → FilledWith (some x ∷ t) f (elim r as (λ _. Option (List (Option Fetch))) [
          | some t' ↦ some (some x ∷ t')
          | none ↦ none
        ])
    behind none h = tt
    behind (some t') h = λ b. ground (arith, h b)

fill_slot-replicate :
    (t : List (Option Fetch)) (n : ℕ) (f : Fetch)
    → 0 < n
    → is_some (fill_slot (t ++ replicate n none) f) ≡ true
unfolding fill_slot
fill_slot-replicate [] zero f pos = ground arith
fill_slot-replicate [] (suc n) f pos = refl
fill_slot-replicate (none ∷ t) n f pos = refl
fill_slot-replicate (some x ∷ t) n f pos = ground (arith, fill_slot-replicate t n f pos)

has_slot-grown :
    (t : List (Option Fetch)) (n b : ℕ) → has_slot b (t ++ replicate n none) ≡ has_slot b t
has_slot-grown [] zero b = refl
has_slot-grown [] (suc n) b = has_slot-grown [] n b
has_slot-grown (none ∷ t) n b = has_slot-grown t n b
has_slot-grown (some f ∷ t) n b = ground (arith, has_slot-grown t n b)

take-length : {A : Type 0} (xs : List A) (n : ℕ) → length xs ≤ n → take n xs ≡ xs
take-length [] zero h = refl
take-length [] (suc n) h = refl
take-length (x ∷ xs) zero h = ground arith
take-length (x ∷ xs) (suc n) h = ap (λ l. x ∷ l) (take-length xs n (omega arith))

-- The table `t` after the fetch at `f` went into a free slot
abbrev pub Added : List (Option Fetch) → Fetch → List (Option Fetch) → Type 0
Added t f t' = (b : ℕ) → has_slot b t' ≡ f.addr == b || has_slot b t

fill_slot-Added : (t t' : List (Option Fetch)) (f : Fetch) → fill_slot t f ≡ some t' → Added t f t'
fill_slot-Added t t' f filled = subst (FilledWith t f) filled (fill_slot-has_slot t f)

module _ (g : Platform) where
  grow_table-append :
      (t : List (Option Fetch))
      → 0 < g.initial_fetch_table_size
      → length t * 2 < 2 ^ 32
      → (k : ℕ) × (0 < k) × (grow_table (new_table_size g (length t)) t ≡ t ++ replicate k none)
  unfolding grow_table new_table_size
  grow_table-append t pos small =
      let n = max g.initial_fetch_table_size (length t * 2 % 2 ^ 32) in
      (n - length t, grind arith, rw (take-length t n (grind arith)) refl)

  -- With memory, an initial table size above 0 and a table below 2^31 slots, add_fetch_to_state
  -- succeeds after at most one growth, holds the new fetch and keeps the others.
  pub add_fetch_to_state-Added :
      (e : Element) (f : Fetch) (io : Io)
      → io.outcomes ≡ []
      → 0 < g.initial_fetch_table_size
      → length e.fetcher_table * 2 < 2 ^ 32
      → (t : List (Option Fetch)) × (add_fetch_to_state g e f io
          ≡ (true, record e { fetcher_table = t }, io))
        × Added e.fetcher_table f t
  unfolding add_fetch_to_state attempt
  add_fetch_to_state-Added e f io clear pos small =
      elim (Option-cases (fill_slot e.fetcher_table f)) [
        | inr (t, filled) ↦ (t, ground arith, fill_slot-Added e.fetcher_table t f filled)
        | inl full ↦
            (let (k, room, grown) = grow_table-append e.fetcher_table pos small in
              elim (Option-cases (fill_slot (e.fetcher_table ++ replicate k none) f)) [
                | inl none_free ↦ ground (arith, fill_slot-replicate e.fetcher_table k f room)
                | inr (t, filled) ↦ (
                  t,
                  ground (arith, grown),
                  λ b.
                      fill_slot-Added (e.fetcher_table ++ replicate k none) t f filled b
                      ∙ ap (λ x. f.addr == b || x) (has_slot-grown e.fetcher_table k b),
                )
              ])
      ]
