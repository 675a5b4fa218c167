-- ===== src/Utf8.antt =====
-- utf8_checker.c: the incremental UTF-8 checker of WebSocket text. The bytes of a sequence are
-- numbers below 256; a word holds its bytes with the first one lowest, as on a little-endian machine.
pub mod Scalar
pub mod Steps
pub mod Accepts
pub mod Correct
pub mod Chunks
pub mod Words
use cjet.Base.{
  ℕ, ◌+◌, ◌/◌, ◌%◌, ◌^◌, Bool, true, false, not, ◌||◌, List, [], ◌∷◌, leb, ltb, ◌==◌, bit_and,
  if◌then◌else◌,
}

-- `struct cjet_utf8_checker`
pub record Utf8Checker : Type 0 where
  pub start_byte : ℕ
  pub length : ℕ
  pub next_byte : ℕ

-- `UC_FINISH`
abbrev pub uc_finish : ℕ
uc_finish = 0xFF

-- `cjet_init_checker`
abbrev pub init_checker : Utf8Checker
init_checker = record { start_byte = uc_finish; length = 1; next_byte = 1 }

-- What the outer `switch` of `is_byte_valid` leaves in `finished`, `ret` and the checker.
pub record Verdict : Type 0 where
  pub finished : Bool
  pub ret : Bool
  pub checker : Utf8Checker

-- `(byte & 0xC0) == 0x80`
unfoldable pub is_continuation : ℕ → Bool
is_continuation byte = bit_and byte 0xC0 == 0x80

-- `case 1`
unfoldable pub first_byte : Utf8Checker → ℕ → Verdict
first_byte c byte =
    let c1 = record c { start_byte = byte } in
    if leb byte 0x7F
    then record { finished = true; ret = true; checker = c1 }
    else if leb byte 0xC1
    then record { finished = false; ret = false; checker = c1 }
    else if leb byte 0xDF
    then record { finished = false; ret = true; checker = record c1 { length = 2 } }
    else if leb byte 0xEF
    then record { finished = false; ret = true; checker = record c1 { length = 3 } }
    else if leb byte 0xF4
    then record { finished = false; ret = true; checker = record c1 { length = 4 } }
    else record { finished = false; ret = false; checker = c1 }

-- The inner `switch` of `case 2`: the second byte is out of the range that its start byte allows.
unfoldable pub is_second_byte_out_of_range : ℕ → ℕ → Bool
is_second_byte_out_of_range start byte =
    if start == 0xE0
    then ltb byte 0xA0 || ltb 0xBF byte
    else if start == 0xED
    then ltb byte 0x80 || ltb 0x9F byte
    else if start == 0xF0
    then ltb byte 0x90 || ltb 0xBF byte
    else if start == 0xF4
    then ltb byte 0x80 || ltb 0x8F byte
    else false

-- The outer `switch` on `next_byte`.
unfoldable pub judge_byte : Utf8Checker → ℕ → Verdict
judge_byte c byte =
    if c.next_byte == 1
    then first_byte c byte
    else if c.next_byte == 2
    then record {
      finished = c.length == 2;
      ret = if is_second_byte_out_of_range c.start_byte byte then false else is_continuation byte;
      checker = c;
    }
    else if c.next_byte == 3
    then record {
      finished = not (is_continuation byte) || c.length == 3;
      ret = is_continuation byte;
      checker = c;
    }
    else if c.next_byte == 4
    then record { finished = true; ret = is_continuation byte; checker = c }
    else record { finished = false; ret = false; checker = c }

-- `is_byte_valid`; `next_byte` is a `uint8_t`
unfoldable pub is_byte_valid : Utf8Checker → ℕ → Bool × Utf8Checker
unfolding judge_byte first_byte is_second_byte_out_of_range
is_byte_valid c byte =
    let v = judge_byte c byte in
    if v.finished || not v.ret
    then (v.ret, init_checker)
    else (v.ret, record (v.checker) { next_byte = (v.checker.next_byte + 1) % 2 ^ 8 })

-- The `for` loop of `cjet_is_text_valid` and `cjet_is_byte_sequence_valid`.
unfoldable pub check_bytes : Utf8Checker → List ℕ → Bool × Utf8Checker
check_bytes c [] = (true, c)
check_bytes c (byte ∷ rest) =
    let (ret, c') = is_byte_valid c byte in
    elim ret [ true ↦ check_bytes c' rest | false ↦ (false, c') ]

-- The end of `cjet_is_byte_sequence_valid` and of the word functions: an unfinished sequence is
-- refused, and the checker starts again.
unfoldable pub complete : Bool → Bool × Utf8Checker → Bool × Utf8Checker
complete is_complete (false, c) = (false, c)
complete false (true, c) = (true, c)
complete true (true, c) = if c.start_byte == uc_finish then (true, c) else (false, init_checker)

-- `cjet_is_byte_sequence_valid`
unfoldable pub is_byte_sequence_valid : Utf8Checker → List ℕ → Bool → Bool × Utf8Checker
is_byte_sequence_valid c sequence is_complete = complete is_complete (check_bytes c sequence)

-- `cjet_is_text_valid`: as above, but an unfinished sequence leaves the checker where it stands. A
-- `char` is taken by its value as a `uint8_t`.
unfoldable pub is_text_valid : Utf8Checker → List ℕ → Bool → Bool × Utf8Checker
is_text_valid c text is_complete =
    let (ret, c') = check_bytes c text in
    elim ret [
      | true ↦ if is_complete then (c'.start_byte == uc_finish, c') else (true, c')
      | false ↦ (false, c')
    ]
