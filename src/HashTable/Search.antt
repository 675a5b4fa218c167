-- ===== src/HashTable/Search.antt =====
-- The loop of hashtable.h that looks for a key among the slots that `hop_info` marks.
use cjet.Base.{
  ℕ, zero, suc, ◌+◌, ◌/◌, ◌^◌, ◌≤◌, ◌<◌, true, not, ◌&&◌, ◌||◌, Option, none, some, ◌==◌, bit_and,
  arith, ◌≡◌, ◌≢◌, refl, sym, ap, ◌∙◌, Bool-cases, inl, inr, if◌then◌else◌,
}
use cjet.Base.Str.{Str, str_eq_iff}
use native.Mathlib.Nat.{pow-suc}
use cjet.Groups.Bits.{bit, bit-zero}
use cjet.HashTable.{Table, is_key, wrap_pos, find_slot}
use cjet.HashTable.Words.{bit_and-one}
use cjet.HashTable.Places.{place-suc, size_bounds}

is_key_sound : (key : Str) (o : Option Str) → is_key key o ≡ true → o ≡ some key
unfolding is_key
is_key_sound key none h = absurd (cc)
is_key_sound key (some k) h = ap some ((str_eq_iff k key).0 h)

is_key_complete : (key : Str) (o : Option Str) → o ≡ some key → is_key key o ≡ true
unfolding is_key
is_key_complete key none h = absurd (cc)
is_key_complete key (some k) h = (str_eq_iff k key).1 (cc)

-- The first bit is what the loop tests.
bit_test : (h : ℕ) → (bit_and h 1 == 1) ≡ bit 0 h
unfolding bit
bit_test h = ap (λ m. m == 1) (bit_and-one h)

module _ (order : ℕ) (low : 5 ≤ order) (high : order ≤ 30) {V : Type 0} (t : Table V)
    (key : Str) where
  -- A round of the loop
  find_slot-suc :
      (r h pos : ℕ)
      → find_slot order (suc r) t key h pos ≡ (
          if h == 0
          then none
          else (if bit 0 h && is_key key (t pos).key
              then some pos
              else find_slot order r t key (h / 2) (wrap_pos order (pos + 1))))
  unfolding find_slot
  find_slot-suc r h pos = rw (← bit_test h) refl

  -- A place further on, as the recursive call has it
  module _ (p : ℕ) (hp : p < 2 ^ order) where
    next_place :
        (r d h : ℕ)
        → suc d ≤ 32
        → find_slot order r t key h (wrap_pos order (wrap_pos order (p + d) + 1))
          ≡ find_slot order r t key h (wrap_pos order (p + suc d))
    next_place r d h small =
        ap (find_slot order r t key h)
          (place-suc order low high p d hp (omega (arith, size_bounds order low high)))

    pub find_slot-found :
        (r d h q : ℕ)
        → d + r ≤ 32
        → find_slot order r t key h (wrap_pos order (p + d)) ≡ some q
        → (j : ℕ) × (j < r)
          × (bit j h ≡ true)
          × (q ≡ wrap_pos order (p + (d + j)))
          × ((t q).key ≡ some key)
    unfolding bit
    find_slot-found zero d h q room found = absurd (unfold find_slot in cc)
    find_slot-found (suc r) d h q room found =
        let pos = wrap_pos order (p + d) in
        let step = find_slot-suc r h pos in
        elim (Bool-cases (h == 0 || not (bit 0 h && is_key key (t pos).key))) [
          | inr here ↦
              let same : some pos ≡ some q = ground (arith, step) in
              let eq : q ≡ pos = cc in
              let key_here : (t q).key ≡ some key =
                rw eq (is_key_sound key (t pos).key (ground arith)) in
              let d_zero : d + 0 ≡ d = omega arith in
              (
                0,
                omega arith,
                ground arith,
                eq ∙ ap (λ k. wrap_pos order (p + k)) (sym d_zero),
                key_here,
              )
          | inl later ↦
              let rest : find_slot order r t key (h / 2) (wrap_pos order (p + suc d)) ≡ some q =
                sym (next_place r d (h / 2) (omega arith)) ∙ (ground (arith, step)) in
              let (j, below, marked, at, has) =
                find_slot-found r (suc d) (h / 2) q (omega arith) rest in
              let d_suc : suc d + j ≡ d + suc j = omega arith in
              (suc j, omega arith, marked, at ∙ ap (λ k. wrap_pos order (p + k)) d_suc, has)
        ]

    pub find_slot-missing :
        (r d h j : ℕ)
        → d + r ≤ 32
        → h < 2 ^ r
        → find_slot order r t key h (wrap_pos order (p + d)) ≡ none
        → bit j h ≡ true
        → (t (wrap_pos order (p + (d + j)))).key ≢ some key
    unfolding bit
    find_slot-missing zero d h j room small missing marked =
        absurd (ground (arith, bit-zero j, (let e : h ≡ 0 = omega arith in ap (bit j) e)))
    find_slot-missing (suc r) d h zero room small missing marked =
        let pos = wrap_pos order (p + d) in
        let d_zero : d + 0 ≡ d = omega arith in
        rw d_zero (λ here.
          let equal = is_key_complete key (t pos).key here in
          ground (arith, find_slot-suc r h pos, bit-zero 0))
    find_slot-missing (suc r) d h (suc j) room small missing marked =
        let pos = wrap_pos order (p + d) in
        let d_suc : d + suc j ≡ suc d + j = omega arith in
        let rest : find_slot order r t key (h / 2) (wrap_pos order (p + suc d)) ≡ none =
          sym (next_place r d (h / 2) (omega arith))
          ∙ (ground (arith, find_slot-suc r h pos, bit-zero (suc j))) in
        rw d_suc (
          find_slot-missing r (suc d) (h / 2) j (omega arith) (omega (arith, pow-suc 2 r)) rest
            (marked))
