-- ===== src/Live/Additions.antt =====
-- `add_element_to_peer` of element.c, as seen from the fetcher tables.
use cjet.Base.{
  ℕ, zero, suc, Bool, true, Option, none, some, ◌≡◌, refl, List, [], ◌∷◌, ◌++◌, ==_refl, arith, All,
  All-append, All-imp, replicate,
}
use cjet.Base.Str.{codes}
use cjet.Json.{Json, Platform}
use cjet.Groups.{AllGroups}
use cjet.State.{Fetch, Element, Peer, Io, World, attempt}
use cjet.Request.{Checked, ok, reply, Passes}
use cjet.Fetch.{find_fetchers_for_element, find_fetchers_in_peers}
use cjet.Element.{
  ElementParams, check_element, fill_access, new_element, init_element, insert_element,
  insert_checked, init_and_insert, allocate_and_insert, add_element_to_peer,
}
use cjet.Fetch.Slots.{SlotHolds, ElementHolds, FetchesHold, find_fetchers_in_peers-holds}
use cjet.Live.Peers.{has_fetch, is_live, SlotsLive, update_peer-SlotsLive}

has_fetch-list : (fs : List Fetch) → All (λ f. has_fetch f.addr fs ≡ true) fs
unfolding has_fetch
has_fetch-list [] = tt
has_fetch-list (f ∷ fs) = (
  ground (arith, ==_refl f.addr),
  All-imp (λ x. has_fetch x.addr fs ≡ true) (λ x. has_fetch x.addr (f ∷ fs) ≡ true) fs
      (λ x h. ground arith) (has_fetch-list fs),
)

AllLive : List Peer → List Peer → Type 0
AllLive qs ps = All (λ p. FetchesHold (is_live qs) p.fetch_list) ps

-- The fetches in the lists are live.
lists-live : (ps : List Peer) → AllLive ps ps
unfolding AllLive is_live
lists-live [] = tt
lists-live (p ∷ ps) = (
  All-imp (λ f. has_fetch f.addr p.fetch_list ≡ true) (λ f. is_live (p ∷ ps) f.addr ≡ true)
      p.fetch_list (λ f h. ground arith) (has_fetch-list p.fetch_list),
  All-imp (λ q. FetchesHold (is_live ps) q.fetch_list)
      (λ q. FetchesHold (is_live (p ∷ ps)) q.fetch_list) ps
      (λ q.
        All-imp (λ f. is_live ps f.addr ≡ true) (λ f. is_live (p ∷ ps) f.addr ≡ true) q.fetch_list
          (λ f h. ground arith))
      (lists-live ps),
)

module _ (g : Platform) where
  FilledIn : (ℕ → Bool) → Option Element → Type 0
  FilledIn L none = Unit
  FilledIn L (some d) = ElementHolds L d

  fill_access-holds :
      (L : ℕ → Bool) (all : AllGroups) (access : Option Json) (e : Element)
      → ElementHolds L e
      → FilledIn L (fill_access g all access e)
  unfolding fill_access FilledIn
  fill_access-holds L all access e h = ground arith

  replicate-live : (L : ℕ → Bool) (n : ℕ) → All (SlotHolds L) (replicate n none)
  replicate-live L zero = tt
  replicate-live L (suc n) = (tt, replicate-live L n)

  init_element-holds :
      (L : ℕ → Bool) (w : World) (p : ℕ) (request : Json) (c : ElementParams) (io : Io)
      → Passes (ElementHolds L) (init_element g w p request c io).0
  unfolding init_element new_element FilledIn
  init_element-holds L w p request c io = ground (
    arith,
    fill_access-holds L w.all_groups (g.get_object_item c.params (codes "access"))
        (new_element g p c) (replicate-live L g.initial_fetch_table_size),
  )

  insert_element-SlotsLive :
      (w : World) (request : Json) (e : Element) (io : Io)
      → ElementHolds (is_live w.peers) e
      → SlotsLive w.peers
      → SlotsLive (insert_element g w request e io).1.peers
  unfolding insert_element find_fetchers_for_element AllLive
  insert_element-SlotsLive w request e io new h =
      let e1 = (find_fetchers_in_peers g w.all_groups w.peers e io).1 in
      ground (
        arith,
        update_peer-SlotsLive e1.peer (λ p. record p { element_list = p.element_list ++ (e1 ∷ []) })
            w.peers (λ p. refl)
            (λ p k. All-append (ElementHolds (is_live w.peers)) p.element_list (e1 ∷ []) k (
              find_fetchers_in_peers-holds (is_live w.peers) g w.all_groups w.peers e io
                  (lists-live w.peers) new,
              tt,
            ))
            h,
      )

  insert_checked-SlotsLive :
      (w : World) (request : Json) (c : Checked Element × Io)
      → Passes (ElementHolds (is_live w.peers)) c.0
      → SlotsLive w.peers
      → SlotsLive (insert_checked g w request c).1.peers
  unfolding insert_checked
  insert_checked-SlotsLive w request (reply r, io) new h = h
  insert_checked-SlotsLive w request (ok e, io) new h =
      insert_element-SlotsLive w request e io new h

  init_and_insert-SlotsLive :
      (w : World) (p : ℕ) (request : Json) (io : Io) (c : Checked ElementParams)
      → SlotsLive w.peers
      → SlotsLive (init_and_insert g w p request io c).1.peers
  unfolding init_and_insert
  init_and_insert-SlotsLive w p request io (reply r) h = h
  init_and_insert-SlotsLive w p request io (ok c) h =
      insert_checked-SlotsLive w request (init_element g w p request c io)
        (init_element-holds (is_live w.peers) w p request c io) h

  -- An add request leaves every table entry live.
  pub add_element_to_peer-SlotsLive :
      (w : World) (p : ℕ) (request : Json)
      → SlotsLive w.peers
      → SlotsLive (add_element_to_peer g w p request).1.peers
  unfolding add_element_to_peer allocate_and_insert
  add_element_to_peer-SlotsLive w p request h =
      ground (
        arith,
        init_and_insert-SlotsLive w p request (attempt w.io).1 (check_element g w request) h,
      )
