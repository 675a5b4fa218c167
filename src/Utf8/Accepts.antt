-- ===== src/Utf8/Accepts.antt =====
-- The byte checker of utf8_checker.c on encodings of scalar values.
use cjet.Base.{
  ℕ, ◌+◌, ◌/◌, ◌%◌, ◌≤◌, ◌<◌, ◌≡◌, ◌∙◌, refl, inl, inr, true, List, [], ◌∷◌, ◌++◌, ltb, arith, All,
  Bool-cases,
}
use cjet.Utf8.{init_checker, check_bytes, is_second_byte_out_of_range}
use cjet.Utf8.Scalar.{IsScalar, encode, encode_all}
use cjet.Utf8.Steps.{
  check-ascii, check_step, lead_step, second_ok, second_step, third_step, fourth_step,
}

accept_two :
    (a b : ℕ) (rest : List ℕ)
    → 0xC2 ≤ a
    → a ≤ 0xDF
    → b < 256
    → second_ok a b ≡ true
    → check_bytes init_checker (a ∷ b ∷ rest) ≡ check_bytes init_checker rest
accept_two a b rest h h' hb ok =
    check_step _ _ a (b ∷ rest) (lead_step a 2 (ground arith))
    ∙ check_step _ _ b rest (second_step a 2 b hb ok)

accept_three :
    (a b c : ℕ) (rest : List ℕ)
    → 0xE0 ≤ a
    → a ≤ 0xEF
    → b < 256
    → second_ok a b ≡ true
    → 0x80 ≤ c
    → c ≤ 0xBF
    → check_bytes init_checker (a ∷ b ∷ c ∷ rest) ≡ check_bytes init_checker rest
accept_three a b c rest h h' hb ok hc hc' =
    check_step _ _ a (b ∷ c ∷ rest) (lead_step a 3 (ground arith))
    ∙ check_step _ _ b (c ∷ rest) (second_step a 3 b hb ok)
    ∙ check_step _ _ c rest (third_step a 3 c (omega arith) ∙ ground arith)

accept_four :
    (a b c d : ℕ) (rest : List ℕ)
    → 0xF0 ≤ a
    → a ≤ 0xF4
    → b < 256
    → second_ok a b ≡ true
    → 0x80 ≤ c
    → c ≤ 0xBF
    → 0x80 ≤ d
    → d ≤ 0xBF
    → check_bytes init_checker (a ∷ b ∷ c ∷ d ∷ rest) ≡ check_bytes init_checker rest
accept_four a b c d rest h h' hb ok hc hc' hd hd' =
    check_step _ _ a (b ∷ c ∷ d ∷ rest) (lead_step a 4 (ground arith))
    ∙ check_step _ _ b (c ∷ d ∷ rest) (second_step a 4 b hb ok)
    ∙ check_step _ _ c (d ∷ rest) (third_step a 4 c (omega arith) ∙ ground arith)
    ∙ check_step _ _ d rest (fourth_step a 4 d (omega arith) ∙ ground arith)

-- The checker comes through one character back to where it was.
check-encode :
    (c : ℕ) (rest : List ℕ)
    → IsScalar c
    → check_bytes init_checker (encode c ++ rest) ≡ check_bytes init_checker rest
unfolding encode is_second_byte_out_of_range
check-encode c rest h = elim (Bool-cases (ltb c 0x80)) [
  | inl small ↦ rw small (check-ascii c rest (ground arith))
  | inr p ↦ elim (Bool-cases (ltb c 0x800)) [
    | inl q ↦
        rw (p, q)
          (accept_two (0xC0 + c / 64) (0x80 + c % 64) rest (ground arith) (ground arith)
            (omega arith) (ground arith))
    | inr q ↦ elim (Bool-cases (ltb c 0x10000)) [
      | inl r ↦
          rw (p, q, r)
            (accept_three (0xE0 + c / 4096) (0x80 + c / 64 % 64) (0x80 + c % 64) rest (ground arith)
              (ground arith) (omega arith) (ground arith) (ground arith) (ground arith))
      | inr r ↦
          rw (p, q, r)
            (accept_four (0xF0 + c / 262144) (0x80 + c / 4096 % 64) (0x80 + c / 64 % 64)
              (0x80 + c % 64) rest (ground arith) (ground arith) (omega arith) (ground arith)
              (ground arith) (ground arith) (ground arith) (ground arith))
    ]
  ]
]

pub check-encode_all :
    (cs : List ℕ)
    → All IsScalar cs
    → check_bytes init_checker (encode_all cs) ≡ (true, init_checker)
unfolding encode_all check_bytes
check-encode_all [] h = refl
check-encode_all (c ∷ cs) h = check-encode c (encode_all cs) h.0 ∙ check-encode_all cs h.1
