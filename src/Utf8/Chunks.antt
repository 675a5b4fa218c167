-- ===== src/Utf8/Chunks.antt =====
-- Texts that reach the byte checker of utf8_checker.c in pieces.
use cjet.Base.{
  ℕ, Bool, true, false, ◌≡◌, refl, sym, ap, ◌∙◌, List, [], ◌∷◌, ◌++◌, arith, All, ◌↔◌, inl,
}
use cjet.Utf8.{
  Utf8Checker, init_checker, is_byte_valid, check_bytes, complete, is_byte_sequence_valid,
}
use cjet.Utf8.Scalar.{IsScalar, encode_all}
use cjet.Utf8.Correct.{
  IsByte, is_byte_sequence_valid-iff-encode_all, IsResting, check_bytes-IsResting,
}

-- Go on with `ys` after the outcome for what came before.
unfoldable pub and_then : Bool × Utf8Checker → List ℕ → Bool → Bool × Utf8Checker
and_then (true, c) ys is_complete = is_byte_sequence_valid c ys is_complete
and_then (false, c) ys is_complete = (false, c)

-- A message in pieces, as long as they are valid; only the last is marked complete.
unfoldable pub check_pieces : Utf8Checker → List (List ℕ) → List ℕ → Bool × Utf8Checker
check_pieces c [] last = is_byte_sequence_valid c last true
check_pieces c (piece ∷ pieces) last =
    let (ret, c') = is_byte_sequence_valid c piece false in
    elim ret [ true ↦ check_pieces c' pieces last | false ↦ (false, c') ]

abbrev pub joined : List (List ℕ) → List ℕ → List ℕ
joined [] last = last
joined (piece ∷ pieces) last = piece ++ joined pieces last

is_byte_sequence_valid-append :
    (xs ys : List ℕ) (c : Utf8Checker) (is_complete : Bool)
    → is_byte_sequence_valid c (xs ++ ys) is_complete
      ≡ and_then (is_byte_sequence_valid c xs false) ys is_complete
unfolding is_byte_sequence_valid and_then check_bytes complete
is_byte_sequence_valid-append [] ys c is_complete = refl
is_byte_sequence_valid-append (x ∷ xs) ys c is_complete =
    ground (arith, is_byte_sequence_valid-append xs ys (is_byte_valid c x).1 is_complete)

check_pieces-joined :
    (pieces : List (List ℕ)) (last : List ℕ) (c : Utf8Checker)
    → check_pieces c pieces last ≡ is_byte_sequence_valid c (joined pieces last) true
unfolding check_pieces and_then
check_pieces-joined [] last c = refl
check_pieces-joined (piece ∷ pieces) last c =
    let rest = check_pieces-joined pieces last (is_byte_sequence_valid c piece false).1 in
    ground (arith, is_byte_sequence_valid-append piece (joined pieces last) c true, rest)

-- A refused byte resets the checker.
is_byte_valid-reset :
    (c : Utf8Checker) (b : ℕ) → (is_byte_valid c b).0 ≡ false → (is_byte_valid c b).1 ≡ init_checker
unfolding is_byte_valid
is_byte_valid-reset c b bad = ground arith

check_bytes-reset :
    (bytes : List ℕ) (c : Utf8Checker)
    → (check_bytes c bytes).0 ≡ false
    → (check_bytes c bytes).1 ≡ init_checker
unfolding check_bytes
check_bytes-reset [] c bad = absurd (ground arith)
check_bytes-reset (b ∷ bytes) c bad =
    ground (arith, is_byte_valid-reset c b, check_bytes-reset bytes (is_byte_valid c b).1)

complete-reset :
    (r : Bool × Utf8Checker)
    → IsResting r.1
    → (r.0 ≡ false → r.1 ≡ init_checker)
    → (complete true r).1 ≡ init_checker
unfolding complete
complete-reset (false, c) rests reset = reset refl
complete-reset (true, c) rests reset = ground arith

sequence-reset : (bs : List ℕ) → (is_byte_sequence_valid init_checker bs true).1 ≡ init_checker
unfolding is_byte_sequence_valid
sequence-reset bs =
    complete-reset (check_bytes init_checker bs) (check_bytes-IsResting init_checker bs (inl refl))
      (check_bytes-reset bs init_checker)

-- A text that is checked from the initial state in any pieces, cut at any bytes, up to the first
-- that is refused and with only the last marked complete, is accepted exactly when all its bytes
-- are the UTF-8 encoding of a list of Unicode scalar values; accepted or not, the checker is in
-- its initial state again.
pub check_pieces-iff-encode_all :
    (pieces : List (List ℕ)) (last : List ℕ)
    → All IsByte (joined pieces last)
    → (((check_pieces init_checker pieces last).0 ≡ true)
        ↔ ((cs : List ℕ) × All IsScalar cs × (joined pieces last ≡ encode_all cs)))
      × ((check_pieces init_checker pieces last).1 ≡ init_checker)
check_pieces-iff-encode_all pieces last bytes =
    let whole = joined pieces last in
    let same = check_pieces-joined pieces last init_checker in
    let (to, from) = is_byte_sequence_valid-iff-encode_all whole bytes in
    (
      (λ h. to (sym (ap (λ r. r.0) same) ∙ h), λ e. ap (λ r. r.0) same ∙ from e),
      ap (λ r. r.1) same ∙ sequence-reset whole,
    )
