-- ===== src/Live/Peers.antt =====
-- Live fetches, and the writes to peers that keep them.
use cjet.Base.{
  ℕ, Bool, true, false, ◌||◌, Option, none, some, ◌≡◌, refl, ◌∙◌, List, [], ◌∷◌, ◌==◌, arith, All,
  All-imp, if◌then◌else◌, Bool-cases, ◌⊎◌, inl, inr, ==_iff,
}
use mathlib.Core.Path.{subst}
use cjet.Base.Str.{Str, str_eq}
use cjet.State.{
  Fetch, Element, Peer, update_peer, find_peer, find_element, update_element, delete_element,
}
use cjet.Fetch.Slots.{SlotHolds, ElementHolds, PeerHolds}

unfoldable pub has_fetch : ℕ → List Fetch → Bool
has_fetch a [] = false
has_fetch a (f ∷ fs) = f.addr == a || has_fetch a fs

-- The address is that of a fetch in the list of some peer.
unfoldable pub is_live : List Peer → ℕ → Bool
is_live [] a = false
is_live (p ∷ ps) a = has_fetch a p.fetch_list || is_live ps a

-- Every entry of every fetcher table is a live fetch.
abbrev pub SlotsLive : List Peer → Type 0
SlotsLive ps = All (PeerHolds (is_live ps)) ps

module _ (L M : ℕ → Bool) (w : (b : ℕ) → L b ≡ true → M b ≡ true) where
  slots_mono : (t : List (Option Fetch)) → All (SlotHolds L) t → All (SlotHolds M) t
  slots_mono [] h = tt
  slots_mono (none ∷ t) h = (tt, slots_mono t h.1)
  slots_mono (some f ∷ t) h = (w f.addr h.0, slots_mono t h.1)

  pub peers_mono : (ps : List Peer) → All (PeerHolds L) ps → All (PeerHolds M) ps
  peers_mono ps = All-imp (PeerHolds L) (PeerHolds M) ps (λ p.
      All-imp (ElementHolds L) (ElementHolds M) p.element_list (λ e. slots_mono e.fetcher_table))

-- The same fetches are live, so what held with the old ones holds with the new ones.
pub SlotsLive-transport :
    (ps qs : List Peer)
    → ((b : ℕ) → is_live qs b ≡ is_live ps b)
    → All (PeerHolds (is_live ps)) qs
    → SlotsLive qs
SlotsLive-transport ps qs same h = peers_mono (is_live ps) (is_live qs) (λ b l. same b ∙ l) qs h

-- A write to a peer that leaves its fetches alone.
pub is_live-update_peer :
    (a b : ℕ) (f : Peer → Peer) (ps : List Peer)
    → ((p : Peer) → (f p).fetch_list ≡ p.fetch_list)
    → is_live (update_peer a f ps) b ≡ is_live ps b
unfolding is_live update_peer
is_live-update_peer a b f [] keep = refl
is_live-update_peer a b f (p ∷ ps) keep = ground (arith, keep p, is_live-update_peer a b f ps keep)

pub All-update_peer {κ} :
    (P : Peer → Type κ) (a : ℕ) (f : Peer → Peer) (ps : List Peer)
    → ((p : Peer) → p.addr ≡ a → P p → P (f p))
    → All P ps
    → All P (update_peer a f ps)
unfolding update_peer
All-update_peer P a f [] step h = tt
All-update_peer P a f (p ∷ ps) step h =
    (here (Bool-cases (p.addr == a)), All-update_peer P a f ps step h.1)
  where
    here : ((p.addr == a) ≡ true) ⊎ ((p.addr == a) ≡ false) → P (if p.addr == a then f p else p)
    here (inl e) = rw e (step p ((==_iff p.addr a).0 e) h.0)
    here (inr e) = rw e h.0

-- A write that leaves the fetches alone and keeps the tables right.
pub update_peer-SlotsLive :
    (a : ℕ) (f : Peer → Peer) (ps : List Peer)
    → ((p : Peer) → (f p).fetch_list ≡ p.fetch_list)
    → ((p : Peer) → PeerHolds (is_live ps) p → PeerHolds (is_live ps) (f p))
    → SlotsLive ps
    → SlotsLive (update_peer a f ps)
update_peer-SlotsLive a f ps keep step h =
    SlotsLive-transport ps (update_peer a f ps) (λ b. is_live-update_peer a b f ps keep)
      (All-update_peer (PeerHolds (is_live ps)) a f ps (λ p _. step p) h)

module _ {κ} (P : Element → Type κ) where
  pub find_element-holds :
      (path : Str) (es : List Element) {e : Element}
      → All P es
      → find_element path es ≡ some e
      → P e
  unfolding find_element
  find_element-holds path [] h found = cc
  find_element-holds path (d ∷ es) {e} h found = elim (Bool-cases (str_eq d.path path)) [
    | inl t ↦ subst P (let same : d ≡ e = ground arith in same) h.0
    | inr t ↦ find_element-holds path es h.1 (ground arith)
  ]

  pub delete_element-holds :
      (path : Str) (es : List Element) → All P es → All P (delete_element path es)
  unfolding delete_element
  delete_element-holds path [] h = tt
  delete_element-holds path (e ∷ es) h = elim (Bool-cases (str_eq e.path path)) [
    | inl t ↦ rw t (delete_element-holds path es h.1)
    | inr t ↦ rw t (h.0, delete_element-holds path es h.1)
  ]

  pub update_element-holds :
      (e : Element) (es : List Element) → P e → All P es → All P (update_element e es)
  unfolding update_element
  update_element-holds e [] new h = tt
  update_element-holds e (d ∷ es) new h = elim (Bool-cases (str_eq d.path e.path)) [
    | inl t ↦ rw t (new, update_element-holds e es new h.1)
    | inr t ↦ rw t (h.0, update_element-holds e es new h.1)
  ]

pub find_peer-holds {κ} :
    (P : Peer → Type κ) (a : ℕ) (ps : List Peer) {p : Peer}
    → All P ps
    → find_peer a ps ≡ some p
    → P p
unfolding find_peer
find_peer-holds P a [] h found = cc
find_peer-holds P a (q ∷ ps) {p} h found = elim (Bool-cases (q.addr == a)) [
  | inl t ↦ subst P (let same : q ≡ p = ground arith in same) h.0
  | inr t ↦ find_peer-holds P a ps h.1 (ground arith)
]
