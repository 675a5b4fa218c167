-- ===== src/Utf8/Steps.antt =====
-- One lemma for each kind of byte that the checker can meet, from the state between two characters.
use cjet.Base.{
  ℕ, ◌+◌, ◌≤◌, ◌<◌, ◌≡◌, refl, Bool, true, false, ◌&&◌, List, ◌∷◌, leb, ◌==◌, arith, not, ◌⊎◌,
  if◌then◌else◌,
}
use cjet.Base.Bits.{passes_up_to, passes_up_to_lem}
use cjet.Utf8.{
  Utf8Checker, init_checker, is_continuation, is_byte_valid, check_bytes,
  is_second_byte_out_of_range,
}

-- The continuation bytes are 0x80 to 0xBF.
abbrev pub in_continuation : ℕ → Bool
in_continuation b = leb 0x80 b && leb b 0xBF

bool_eq : Bool → Bool → Bool
bool_eq true b = b
bool_eq false true = false
bool_eq false false = true

bool_eq_sound : (a b : Bool) → bool_eq a b ≡ true → a ≡ b
unfolding bool_eq
bool_eq_sound a b h = ground arith

continuation_table : passes_up_to (λ b. bool_eq (is_continuation b) (in_continuation b)) 256 ≡ true
unfolding passes_up_to is_continuation bool_eq
continuation_table = refl

pub is_continuation-eq : (b : ℕ) → b < 256 → is_continuation b ≡ in_continuation b
is_continuation-eq b h = bool_eq_sound _ _ (passes_up_to_lem _ 256 {k = b} h continuation_table)

-- The state after `seen` bytes of a character of `n` bytes that begins with `a`.
abbrev pub within : ℕ → ℕ → ℕ → Utf8Checker
within a n seen = record { start_byte = a; length = n; next_byte = seen + 1 }

pub check-ascii :
    (a : ℕ) (rest : List ℕ)
    → a ≤ 0x7F
    → check_bytes init_checker (a ∷ rest) ≡ check_bytes init_checker rest
unfolding check_bytes is_byte_valid
check-ascii a rest h = ground arith

pub check_step :
    (c c' : Utf8Checker) (a : ℕ) (rest : List ℕ)
    → is_byte_valid c a ≡ (true, c')
    → check_bytes c (a ∷ rest) ≡ check_bytes c' rest
unfolding check_bytes
check_step c c' a rest h = ground arith

-- The first byte of a longer character.
pub lead_step :
    (a n : ℕ)
    → ((0xC2 ≤ a) × (a ≤ 0xDF) × (n ≡ 2))
      ⊎ ((0xE0 ≤ a) × (a ≤ 0xEF) × (n ≡ 3))
      ⊎ ((0xF0 ≤ a) × (a ≤ 0xF4) × (n ≡ 4))
    → is_byte_valid init_checker a ≡ (true, within a n 1)
unfolding is_byte_valid
lead_step a n h = ground arith

-- A byte that begins nothing.
pub bad_lead :
    (a : ℕ)
    → ((0x80 ≤ a) × (a ≤ 0xC1)) ⊎ (0xF5 ≤ a)
    → is_byte_valid init_checker a ≡ (false, init_checker)
unfolding is_byte_valid
bad_lead a h = ground arith

-- The second byte is accepted exactly when it is a continuation that the first byte allows.
abbrev pub second_ok : ℕ → ℕ → Bool
second_ok a b = not (is_second_byte_out_of_range a b) && in_continuation b

pub second_step :
    (a n b : ℕ)
    → b < 256
    → second_ok a b ≡ true
    → is_byte_valid (within a n 1) b ≡ (true, if n == 2 then init_checker else within a n 2)
unfolding is_byte_valid
second_step a n b hb h = ground (arith, is_continuation-eq b hb)

pub second_bad :
    (a n b : ℕ)
    → b < 256
    → second_ok a b ≡ false
    → is_byte_valid (within a n 1) b ≡ (false, init_checker)
unfolding is_byte_valid
second_bad a n b hb h = ground (arith, is_continuation-eq b hb)

pub third_step :
    (a n b : ℕ)
    → b < 256
    → is_byte_valid (within a n 2) b ≡ (
      in_continuation b,
      if in_continuation b && not (n == 3) then within a n 3 else init_checker,
    )
unfolding is_byte_valid
third_step a n b hb = ground (arith, is_continuation-eq b hb)

pub fourth_step :
    (a n b : ℕ) → b < 256 → is_byte_valid (within a n 3) b ≡ (in_continuation b, init_checker)
unfolding is_byte_valid
fourth_step a n b hb = ground (arith, is_continuation-eq b hb)

pub check_stop :
    (c c' : Utf8Checker) (a : ℕ) (rest : List ℕ)
    → is_byte_valid c a ≡ (false, c')
    → check_bytes c (a ∷ rest) ≡ (false, c')
unfolding check_bytes
check_stop c c' a rest h = ground arith
