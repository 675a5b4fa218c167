-- ===== src/Utf8/Correct.antt =====
-- The byte checker of utf8_checker.c against the encoding of Unicode scalar values.
use cjet.Base.{
  ℕ, zero, suc, ◌+◌, ◌-◌, ◌*◌, ◌≤◌, ◌<◌, ◌≡◌, ◌∙◌, sym, refl, ap, inl, inr, Bool, true, false, ◌↔◌,
  List, [], ◌∷◌, ◌++◌, arith, All, Bool-cases, length, ◌⊎◌, leb,
}
use cjet.Utf8.{
  Utf8Checker, init_checker, check_bytes, is_byte_valid, is_second_byte_out_of_range, complete,
  is_byte_sequence_valid,
}
use cjet.Utf8.Scalar.{IsScalar, encode, encode_all}
use cjet.Utf8.Steps.{
  in_continuation, within, check-ascii, check_step, check_stop, lead_step, bad_lead, second_ok,
  second_step, second_bad, third_step, fourth_step,
}
use cjet.Utf8.Accepts.{check-encode_all}

abbrev pub IsByte : ℕ → Type 0
IsByte b = b < 256

abbrev Decoded : List ℕ → Type 0
Decoded bs = (cs : List ℕ) × All IsScalar cs × (bs ≡ encode_all cs)

prepend :
    (c : ℕ) (chunk rest : List ℕ)
    → IsScalar c
    → encode c ≡ chunk
    → Decoded rest
    → Decoded (chunk ++ rest)
unfolding encode_all
prepend c chunk rest s e (cs, h, p) = (c ∷ cs, (s, h), cc)

-- A complete check of what comes after a character that has been read.
abbrev Accepts : Utf8Checker → List ℕ → Type 0
Accepts c bs = check_bytes c bs ≡ (true, init_checker)

abbrev Hypothesis : ℕ → Type 0
Hypothesis n = (r : List ℕ) → length r < n → All IsByte r → Accepts init_checker r → Decoded r

-- The input ends inside a character.
unfinished : (a n s : ℕ) → a < 0xFF → ¬ (Accepts (within a n s) [])
unfolding check_bytes
unfinished a n s h e = omega (arith, ap (λ (p : Bool × Utf8Checker). p.1.start_byte) e)

refused :
    (bs : List ℕ) (c : Utf8Checker) (c' : Utf8Checker)
    → check_bytes c bs ≡ (false, c')
    → ¬ (Accepts c bs)
refused bs c c' e h = cc

-- The rest of a character of two bytes.
two :
    (n a : ℕ) (rest : List ℕ)
    → 0xC2 ≤ a
    → a ≤ 0xDF
    → length rest < n
    → All IsByte rest
    → Accepts (within a 2 1) rest
    → Hypothesis n
    → Decoded (a ∷ rest)
two n a [] lo hi l bytes h ih = absurd (unfinished a 2 1 (omega arith) h)
two n a (b ∷ r) lo hi l bytes h ih = elim (Bool-cases (second_ok a b)) [
  | inl ok ↦
      prepend ((a - 0xC0) * 64 + (b - 0x80)) (a ∷ b ∷ []) r (ground arith)
        (unfold encode is_second_byte_out_of_range in ground arith)
        (ih r (omega arith) bytes.1 (sym (check_step _ _ b r (second_step a 2 b bytes.0 ok)) ∙ h))
  | inr bad ↦ absurd (refused (b ∷ r) _ _ (check_stop _ _ b r (second_bad a 2 b bytes.0 bad)) h)
]

-- The third byte of a character of three bytes, after a second byte that is accepted.
third :
    (n a b : ℕ) (rest : List ℕ)
    → 0xE0 ≤ a
    → a ≤ 0xEF
    → second_ok a b ≡ true
    → length rest < n
    → All IsByte rest
    → Accepts (within a 3 2) rest
    → Hypothesis n
    → Decoded (a ∷ b ∷ rest)
third n a b [] lo hi ok l bytes h ih = absurd (unfinished a 3 2 (omega arith) h)
third n a b (c ∷ r) lo hi ok l bytes h ih = elim (Bool-cases (in_continuation c)) [
  | inl good ↦
      prepend ((a - 0xE0) * 4096 + (b - 0x80) * 64 + (c - 0x80)) (a ∷ b ∷ c ∷ []) r
        (unfold is_second_byte_out_of_range in ground arith)
        (unfold encode is_second_byte_out_of_range in ground arith)
        (ih r (omega arith) bytes.1
          (sym (check_step _ _ c r (third_step a 3 c bytes.0 ∙ ground arith)) ∙ h))
  | inr bad ↦ absurd (
      refused (c ∷ r) _ init_checker (check_stop _ _ c r (third_step a 3 c bytes.0 ∙ ground arith))
        h)
]

three :
    (n a : ℕ) (rest : List ℕ)
    → 0xE0 ≤ a
    → a ≤ 0xEF
    → length rest < n
    → All IsByte rest
    → Accepts (within a 3 1) rest
    → Hypothesis n
    → Decoded (a ∷ rest)
three n a [] lo hi l bytes h ih = absurd (unfinished a 3 1 (omega arith) h)
three n a (b ∷ r) lo hi l bytes h ih = elim (Bool-cases (second_ok a b)) [
  | inl ok ↦
      third n a b r lo hi ok (omega arith) bytes.1
        (sym (check_step _ _ b r (second_step a 3 b bytes.0 ok)) ∙ h) ih
  | inr bad ↦ absurd (refused (b ∷ r) _ _ (check_stop _ _ b r (second_bad a 3 b bytes.0 bad)) h)
]

-- The last byte of a character of four bytes.
fourth :
    (n a b c : ℕ) (rest : List ℕ)
    → 0xF0 ≤ a
    → a ≤ 0xF4
    → second_ok a b ≡ true
    → in_continuation c ≡ true
    → length rest < n
    → All IsByte rest
    → Accepts (within a 4 3) rest
    → Hypothesis n
    → Decoded (a ∷ b ∷ c ∷ rest)
fourth n a b c [] lo hi ok ok' l bytes h ih = absurd (unfinished a 4 3 (omega arith) h)
fourth n a b c (d ∷ r) lo hi ok ok' l bytes h ih = elim (Bool-cases (in_continuation d)) [
  | inl good ↦
      prepend ((a - 0xF0) * 262144 + (b - 0x80) * 4096 + (c - 0x80) * 64 + (d - 0x80))
        (a ∷ b ∷ c ∷ d ∷ []) r (unfold is_second_byte_out_of_range in ground arith)
        (unfold encode is_second_byte_out_of_range in ground arith)
        (ih r (omega arith) bytes.1
          (sym (check_step _ _ d r (fourth_step a 4 d bytes.0 ∙ ground arith)) ∙ h))
  | inr bad ↦ absurd (
      refused (d ∷ r) _ init_checker (check_stop _ _ d r (fourth_step a 4 d bytes.0 ∙ ground arith))
        h)
]

third_of_four :
    (n a b : ℕ) (rest : List ℕ)
    → 0xF0 ≤ a
    → a ≤ 0xF4
    → second_ok a b ≡ true
    → length rest < n
    → All IsByte rest
    → Accepts (within a 4 2) rest
    → Hypothesis n
    → Decoded (a ∷ b ∷ rest)
third_of_four n a b [] lo hi ok l bytes h ih = absurd (unfinished a 4 2 (omega arith) h)
third_of_four n a b (c ∷ r) lo hi ok l bytes h ih = elim (Bool-cases (in_continuation c)) [
  | inl good ↦
      fourth n a b c r lo hi ok good (omega arith) bytes.1
        (sym (check_step _ _ c r (third_step a 4 c bytes.0 ∙ ground arith)) ∙ h) ih
  | inr bad ↦ absurd (
      refused (c ∷ r) _ init_checker (check_stop _ _ c r (third_step a 4 c bytes.0 ∙ ground arith))
        h)
]

four :
    (n a : ℕ) (rest : List ℕ)
    → 0xF0 ≤ a
    → a ≤ 0xF4
    → length rest < n
    → All IsByte rest
    → Accepts (within a 4 1) rest
    → Hypothesis n
    → Decoded (a ∷ rest)
four n a [] lo hi l bytes h ih = absurd (unfinished a 4 1 (omega arith) h)
four n a (b ∷ r) lo hi l bytes h ih = elim (Bool-cases (second_ok a b)) [
  | inl ok ↦
      third_of_four n a b r lo hi ok (omega arith) bytes.1
        (sym (check_step _ _ b r (second_step a 4 b bytes.0 ok)) ∙ h) ih
  | inr bad ↦ absurd (refused (b ∷ r) _ _ (check_stop _ _ b r (second_bad a 4 b bytes.0 bad)) h)
]

-- The first byte decides which of the above applies.
data Lead (a : ℕ) : Type 0 where
  ascii : a ≤ 0x7F → Lead a
  of_two : 0xC2 ≤ a → a ≤ 0xDF → Lead a
  of_three : 0xE0 ≤ a → a ≤ 0xEF → Lead a
  of_four : 0xF0 ≤ a → a ≤ 0xF4 → Lead a
  none_ : ((0x80 ≤ a) × (a ≤ 0xC1)) ⊎ (0xF5 ≤ a) → Lead a

classify : (a : ℕ) → Lead a
classify a = elim (Bool-cases (leb a 0x7F)) [
  | inl p ↦ ascii (ground arith)
  | inr p ↦ elim (Bool-cases (leb a 0xC1)) [
    | inl q ↦ none_ (inl (ground arith, ground arith))
    | inr q ↦ elim (Bool-cases (leb a 0xDF)) [
      | inl r ↦ of_two (ground arith) (ground arith)
      | inr r ↦ elim (Bool-cases (leb a 0xEF)) [
        | inl s ↦ of_three (ground arith) (ground arith)
        | inr s ↦ elim (Bool-cases (leb a 0xF4)) [
          | inl t ↦ of_four (ground arith) (ground arith)
          | inr t ↦ none_ (inr (ground arith))
        ]
      ]
    ]
  ]
]

decode_next :
    (n a : ℕ) (rest : List ℕ)
    → Lead a
    → length rest < n
    → All IsByte rest
    → Accepts init_checker (a ∷ rest)
    → Hypothesis n
    → Decoded (a ∷ rest)
decode_next n a rest (ascii p) l bytes h ih =
    prepend a (a ∷ []) rest (ground arith) (unfold encode in ground arith)
      (ih rest l bytes (sym (check-ascii a rest p) ∙ h))
decode_next n a rest (of_two p q) l bytes h ih =
    two n a rest p q l bytes (sym (check_step _ _ a rest (lead_step a 2 (inl (p, q, refl)))) ∙ h) ih
decode_next n a rest (of_three p q) l bytes h ih =
    three n a rest p q l bytes
      (sym (check_step _ _ a rest (lead_step a 3 (inr (inl (p, q, refl))))) ∙ h) ih
decode_next n a rest (of_four p q) l bytes h ih =
    four n a rest p q l bytes
      (sym (check_step _ _ a rest (lead_step a 4 (inr (inr (p, q, refl))))) ∙ h) ih
decode_next n a rest (none_ p) l bytes h ih =
    absurd (refused (a ∷ rest) _ _ (check_stop _ _ a rest (bad_lead a p)) h)

decode : (n : ℕ) → Hypothesis n
unfolding encode_all
decode zero bs l bytes h = absurd (omega arith)
decode (suc n) [] l bytes h = ([], tt, refl)
decode (suc n) (a ∷ rest) l bytes h =
    decode_next n a rest (classify a) (omega arith) bytes.1 h (decode n)

-- Between two characters the checker is in its initial state.
abbrev pub IsResting : Utf8Checker → Type 0
IsResting c = (c ≡ init_checker) ⊎ (c.start_byte ≤ 0xF4)

pub is_byte_valid-IsResting :
    (c : Utf8Checker) (b : ℕ) → IsResting c → IsResting (is_byte_valid c b).1
unfolding is_byte_valid
is_byte_valid-IsResting c b h = ground arith

pub check_bytes-IsResting :
    (c : Utf8Checker) (bs : List ℕ) → IsResting c → IsResting (check_bytes c bs).1
unfolding check_bytes
check_bytes-IsResting c [] h = h
check_bytes-IsResting c (b ∷ bs) h =
    ground (arith, is_byte_valid-IsResting c b h, check_bytes-IsResting (is_byte_valid c b).1 bs)

complete_lem :
    (r : Bool × Utf8Checker) → IsResting r.1 → (complete true r).0 ≡ true → r ≡ (true, init_checker)
unfolding complete
complete_lem (false, c) h e = cc
complete_lem (true, c) h e = ground arith

-- A complete byte sequence is accepted from the initial state exactly when it is the UTF-8
-- encoding of a list of Unicode scalar values.
pub is_byte_sequence_valid-iff-encode_all :
    (bs : List ℕ)
    → All IsByte bs
    → ((is_byte_sequence_valid init_checker bs true).0 ≡ true)
      ↔ ((cs : List ℕ) × All IsScalar cs × (bs ≡ encode_all cs))
unfolding is_byte_sequence_valid
is_byte_sequence_valid-iff-encode_all bs bytes = (
  λ h.
      decode (suc (length bs)) bs (omega arith) bytes
        (complete_lem _ (check_bytes-IsResting init_checker bs (inl refl)) h),
  λ (cs, s, e). rw (e, check-encode_all cs s) (unfold complete in refl),
)
