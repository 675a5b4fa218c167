-- ===== src/Utf8/Words.antt =====
-- The checkers of utf8_checker.c that read whole words, with a fast way for words that hold only ASCII
-- characters and characters of two bytes. Utf8/Words/Zones is about the tests of one word,
-- Utf8/Words/Bytewise about whole texts.
use cjet.Base.{
  ℕ, zero, suc, ◌+◌, ◌-◌, ◌*◌, ◌/◌, ◌%◌, ◌^◌, Bool, true, false, not, ◌&&◌, ◌||◌, List, [], ◌∷◌,
  ◌++◌, ltb, ◌==◌, bit_and, if◌then◌else◌,
}
use cjet.Utf8.{Utf8Checker, check_bytes, complete}
pub mod Zones
pub mod Bytewise

-- The tests on a `uint32_t` that `continue` the loop of `cjet_is_word_sequence_valid`
unfoldable pub is_fast_word : ℕ → Bool
is_fast_word tmp =
    bit_and tmp 0x80808080 == 0
    || (bit_and tmp 0x8080C0E0 == 0x80C0 && ltb 0x01 (bit_and tmp 0x1F))
    || (bit_and tmp 0x80C0E080 == 0x80C000 && ltb 0x0100 (bit_and tmp 0x1F00))
    || (bit_and tmp 0xC0E08080 == 0x80C00000 && ltb 0x010000 (bit_and tmp 0x1F0000))
    || (bit_and tmp 0xC0E0C0E0 == 0x80C080C0 && ltb 0x010001 (bit_and tmp 0x1F001F))

-- Those on a `uint64_t`, in `cjet_is_word64_sequence_valid`
unfoldable pub is_fast_word64 : ℕ → Bool
is_fast_word64 tmp =
    bit_and tmp 0x8080808080808080 == 0
    || (bit_and tmp 0xC0E0C0E0C0E0C0E0 == 0x80C080C080C080C0
        && ltb 0x0001000100010001 (bit_and tmp 0x001F001F001F001F))

-- `(tmp >> j * 8) & 0xFF` for the `n` bytes of a word
abbrev pub word_bytes : ℕ → ℕ → List ℕ
word_bytes zero tmp = []
word_bytes (suc n) tmp = tmp % 256 ∷ word_bytes n (tmp / 256)

-- The loop over words of `n` bytes
module _ (n : ℕ) (is_fast : ℕ → Bool) where
  unfoldable pub check_words : Utf8Checker → List ℕ → Bool × Utf8Checker
  check_words c [] = (true, c)
  check_words c (word ∷ sequence) =
      let fast = check_words c sequence in
      let (ret, c') = check_bytes c (word_bytes n word) in
      let slow : Bool × Utf8Checker = elim ret [
        | true ↦ check_words c' sequence
        | false ↦ (false, c')
      ] in
      if c.next_byte == 1 && is_fast word then fast else slow

-- `cjet_is_word_sequence_valid`
unfoldable pub is_word_sequence_valid : Utf8Checker → List ℕ → Bool → Bool × Utf8Checker
unfolding is_fast_word check_words
is_word_sequence_valid c sequence is_complete =
    complete is_complete (check_words 4 is_fast_word c sequence)

-- `cjet_is_word64_sequence_valid`
unfoldable pub is_word64_sequence_valid : Utf8Checker → List ℕ → Bool → Bool × Utf8Checker
unfolding is_fast_word64 check_words
is_word64_sequence_valid c sequence is_complete =
    complete is_complete (check_words 8 is_fast_word64 c sequence)
