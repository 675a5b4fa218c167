-- ===== src/HashTable/Writes.antt =====
-- The three writes of hashtable.h: a value under a key that is there, an entry for a new key, and the
-- removal of an entry.
use cjet.Base.{
  ℕ, ◌+◌, ◌^◌, ◌≤◌, ◌<◌, not, ◌&&◌, ◌||◌, ◌==◌, ==_refl, bit_and, bit_or, none, some, arith, ◌≡◌,
  ◌≢◌, sym, ap, ◌∙◌, Bool-cases, inl, inr, ◌⊎◌,
}
use cjet.Base.Str.{Str}
use native.Mathlib.Decide.{ℕ_discrete}
use cjet.HashTable.Slots.{
  hop-set_entry, entry_self, entry_other, hop_self, hop_other, entry-set_hop,
}
use cjet.Groups.Bits.{bit}
use cjet.HashTable.{Table, complement, wrap_pos, hash_func, set_entry, set_hop, write_entry}
use cjet.HashTable.Words.{bit-cleared, bit_added, added-lt, cleared-lt}
use cjet.HashTable.Places.{size_bounds, hash_func-lt, place_inj}
use cjet.HashTable.Contents.{Marked, IsConsistent}
use cjet.HashTable.Moves.{IsFree}
use cjet.HashTable.Edits.{Edit}

module _ (order : ℕ) (low : 5 ≤ order) (high : order ≤ 30) {V : Type 0} (t : Table V)
    (good : IsConsistent order t) (key : Str) (d : ℕ) (near : d < 32) where
  abbrev p0 : ℕ
  p0 = hash_func order key

  abbrev f : ℕ
  f = wrap_pos order (p0 + d)

  below : p0 < 2 ^ order
  below = hash_func-lt order low high key

  wide : 32 ≤ 2 ^ order
  wide = (size_bounds order low high).0

  -- Where the key stands already, its bit is the only one that leads there,
  module _ (marked : Marked order t p0 d) (has : (t f).key ≡ some key) where
    only_way :
        (p e : ℕ)
        → p < 2 ^ order
        → e < 32
        → Marked order t p e
        → wrap_pos order (p + e) ≡ f
        → (p ≡ p0) × (e ≡ d)
    only_way p e hp he m at =
        let (k, has', home) = good.marked p e hp he m in
        let here : (t f).key ≡ some k = rw (← at) has' in
        let keys : k ≡ key = cc (here, has) in
        let ep : p ≡ p0 = sym home ∙ ap (hash_func order) keys in
        let at' : wrap_pos order (p0 + e) ≡ f = ap (λ q. wrap_pos order (q + e)) (sym ep) ∙ at in
        (ep, place_inj order low high p0 e d below (omega (arith, wide)) (omega (arith, wide)) at')

    -- and no other bit of its slot leads to the key.
    only_key :
        (e : ℕ)
        → e < 32
        → Marked order t p0 e
        → wrap_pos order (p0 + e) ≢ f
        → (t (wrap_pos order (p0 + e))).key ≢ some key
    only_key e he m away has' = away (
        ap (λ k. wrap_pos order (p0 + k))
          (good.unique p0 e d below he near m marked (has' ∙ sym has)))

    abbrev pub overwritten : V → Table V
    overwritten v = set_entry f (t f).key v t

    overwritten_hop : (v : V) (p : ℕ) → (overwritten v p).hop_info ≡ (t p).hop_info
    overwritten_hop v p = hop-set_entry f t (t f).key v p

    overwritten_marks :
        (v : V) (p e : ℕ)
        → p < 2 ^ order
        → e < 32
        → Marked order (overwritten v) p e
        → ((some v ≢ none) × (p ≡ p0) × (e ≡ d))
          ⊎ (Marked order t p e × (wrap_pos order (p + e) ≢ f))
    overwritten_marks v p e hp he m =
        let old : Marked order t p e = sym (ap (bit e) (overwritten_hop v p)) ∙ m in
        elim (ℕ_discrete (wrap_pos order (p + e)) f) [
          | yes at ↦ (let (ep, ee) = only_way p e hp he old at in inl (λ n. cc n, ep, ee))
          | no away ↦ inr (old, away)
        ]

    pub overwrite-Edit : (v : V) → Edit order t key (some v) d (overwritten v)
    overwrite-Edit v = record {
      near = near;
      small = λ p hp. rw (overwritten_hop v p) (good.small p hp);
      entry = λ w e.
          let (key', value') = entry_self f t (t f).key v in
          (ap (bit d) (overwritten_hop v p0) ∙ marked, key' ∙ has, value' ∙ (cc e));
      elsewhere = λ q ne. entry_other f t (t f).key v q ne;
      marks_back = λ p e hp he m. overwritten_marks v p e hp he m;
      marks_there = λ p e hp he m away. ap (bit e) (overwritten_hop v p) ∙ m;
      lost = λ p e hp he m at. rw at has;
      fresh = only_key;
    }

    abbrev pub erased : V → Table V
    erased null =
        set_hop p0 (bit_and (t p0).hop_info (complement (2 ^ d))) (set_entry f none null t)

    erased_bits :
        (null : V) (p e : ℕ)
        → e < 32
        → bit e (erased null p).hop_info ≡ bit e (t p).hop_info && not (p == p0 && e == d)
    erased_bits null p e he =
        let t1 = set_entry f none null t in
        let hops = bit_and (t p0).hop_info (complement (2 ^ d)) in
        elim (Bool-cases (p == p0)) [
          | inl same ↦
              let ep : p ≡ p0 = ground arith in
              ap (λ q. bit e (erased null q).hop_info) ep
              ∙ ap (bit e) (hop_self p0 t1 hops)
              ∙ bit-cleared e d (t p0).hop_info he
              ∙ (ground (arith, ap (λ q. bit e (t q).hop_info) ep))
          | inr other ↦
              let ne : p ≢ p0 = ground arith in
              ap (bit e) (hop_other p0 t1 hops p ne ∙ hop-set_entry f t none null p)
              ∙ (ground arith)
        ]

    erased_small : (null : V) (p : ℕ) → p < 2 ^ order → (erased null p).hop_info < 2 ^ 32
    erased_small null p hp =
        let t1 = set_entry f none null t in
        let hops = bit_and (t p0).hop_info (complement (2 ^ d)) in
        elim (ℕ_discrete p p0) [
          | yes ep ↦
              rw (ep, hop_self p0 t1 hops)
                (cleared-lt (t p0).hop_info (complement (2 ^ d)) (good.small p0 below))
          | no ne ↦ rw (hop_other p0 t1 hops p ne, hop-set_entry f t none null p) (good.small p hp)
        ]

    erased_marks :
        (null : V) (p e : ℕ)
        → p < 2 ^ order
        → e < 32
        → Marked order (erased null) p e
        → Marked order t p e × (wrap_pos order (p + e) ≢ f)
    erased_marks null p e hp he m =
        let old : Marked order t p e = ground (arith, erased_bits null p e he) in
        (
          old,
          λ at. let (ep, ee) = only_way p e hp he old at in ground (arith, erased_bits null p e he),
        )

    erased_kept :
        (null : V) (p e : ℕ)
        → e < 32
        → Marked order t p e
        → wrap_pos order (p + e) ≢ f
        → Marked order (erased null) p e
    erased_kept null p e he m away = elim (Bool-cases (p == p0 && e == d)) [
      | inl same ↦
          let ep : p ≡ p0 = ground arith in
          let ee : e ≡ d = ground arith in
          absurd (away (ap (λ q. wrap_pos order (q + e)) ep ∙ ap (λ k. wrap_pos order (p0 + k)) ee))
      | inr other ↦ ground (arith, erased_bits null p e he)
    ]

    pub erase-Edit : (null : V) → Edit order t key none d (erased null)
    erase-Edit null = record {
      near = near;
      small = λ p hp. erased_small null p hp;
      entry = λ w e. absurd (cc);
      elsewhere = λ q ne.
          let (key1, value1) =
            entry-set_hop p0 (set_entry f none null t)
              (bit_and (t p0).hop_info (complement (2 ^ d))) q in
          let (key2, value2) = entry_other f t none null q ne in (key1 ∙ key2, value1 ∙ value2);
      marks_back = λ p e hp he m. inr (erased_marks null p e hp he m);
      marks_there = λ p e hp he m away. erased_kept null p e he m away;
      lost = λ p e hp he m at. rw at has;
      fresh = only_key;
    }

  -- A new entry in a free slot
  module _ (free : IsFree order t f)
      (absent : (e : ℕ)
        → e < 32
        → Marked order t p0 e
        → (t (wrap_pos order (p0 + e))).key ≢ some key) where
    abbrev pub inserted : V → Table V
    inserted v = write_entry order t key v p0 d f

    inserted_entry :
        (v : V) (q : ℕ)
        → ((inserted v q).key ≡ (set_entry f (some key) v t q).key)
          × ((inserted v q).value ≡ (set_entry f (some key) v t q).value)
    unfolding write_entry
    inserted_entry v q =
        let t1 = set_entry f (some key) v t in
        entry-set_hop p0 t1 (bit_or (t1 p0).hop_info (2 ^ d)) q

    inserted_hop : (v : V) → (inserted v p0).hop_info ≡ bit_or (t p0).hop_info (2 ^ d)
    unfolding write_entry
    inserted_hop v =
        let t1 = set_entry f (some key) v t in
        hop_self p0 t1 (bit_or (t1 p0).hop_info (2 ^ d))
        ∙ ap (λ h. bit_or h (2 ^ d)) (hop-set_entry f t (some key) v p0)

    inserted_hop_other : (v : V) (p : ℕ) → p ≢ p0 → (inserted v p).hop_info ≡ (t p).hop_info
    unfolding write_entry
    inserted_hop_other v p ne =
        let t1 = set_entry f (some key) v t in
        hop_other p0 t1 (bit_or (t1 p0).hop_info (2 ^ d)) p ne ∙ hop-set_entry f t (some key) v p

    inserted_bits :
        (v : V) (p e : ℕ)
        → bit e (inserted v p).hop_info ≡ bit e (t p).hop_info || (p == p0 && e == d)
    inserted_bits v p e = elim (Bool-cases (p == p0)) [
      | inl same ↦
          let ep : p ≡ p0 = ground arith in
          ap (λ q. bit e (inserted v q).hop_info) ep
          ∙ ap (bit e) (inserted_hop v)
          ∙ bit_added e d (t p0).hop_info
          ∙ (ground (arith, ap (λ q. bit e (t q).hop_info) ep))
      | inr other ↦ ap (bit e) (inserted_hop_other v p (ground arith)) ∙ (ground arith)
    ]

    inserted_small : (v : V) (p : ℕ) → p < 2 ^ order → (inserted v p).hop_info < 2 ^ 32
    inserted_small v p hp = elim (ℕ_discrete p p0) [
      | yes ep ↦ rw (ep, inserted_hop v) (added-lt (t p0).hop_info d (good.small p0 below) near)
      | no ne ↦ rw (inserted_hop_other v p ne) (good.small p hp)
    ]

    inserted_marks :
        (v : V) (p e : ℕ)
        → p < 2 ^ order
        → e < 32
        → Marked order (inserted v) p e
        → ((some v ≢ none) × (p ≡ p0) × (e ≡ d))
          ⊎ (Marked order t p e × (wrap_pos order (p + e) ≢ f))
    inserted_marks v p e hp he m = elim (Bool-cases (p == p0 && e == d)) [
      | inl new ↦ inl (λ n. cc n, ground arith, ground arith)
      | inr old ↦
          let m' : Marked order t p e = ground (arith, inserted_bits v p e) in
          inr (m', free p e hp he m')
    ]

    pub write_entry-Edit : (v : V) → Edit order t key (some v) d (inserted v)
    write_entry-Edit v = record {
      near = near;
      small = λ p hp. inserted_small v p hp;
      entry = λ w e.
          let (key1, value1) = inserted_entry v f in
          let (key2, value2) = entry_self f t (some key) v in
          (
            ground (arith, inserted_bits v p0 d, ==_refl p0, ==_refl d),
            key1 ∙ key2,
            value1 ∙ value2 ∙ (cc e),
          );
      elsewhere = λ q ne.
          let (key1, value1) = inserted_entry v q in
          let (key2, value2) = entry_other f t (some key) v q ne in (key1 ∙ key2, value1 ∙ value2);
      marks_back = λ p e hp he m. inserted_marks v p e hp he m;
      marks_there = λ p e hp he m away. ground (arith, inserted_bits v p e);
      lost = λ p e hp he m at. absurd (free p e hp he m at);
      fresh = λ e he m away. absent e he m;
    }
