-- ===== src/Utf8/Words/Bytewise.antt =====
-- The word checkers of utf8_checker.c against the byte checker.
use cjet.Base.{
  ℕ, Bool, true, false, ◌&&◌, ◌==◌, ◌≡◌, refl, sym, ap, ◌∙◌, arith, List, [], ◌∷◌, ◌++◌, Bool-cases,
  inl, inr, All, if◌then◌else◌,
}
use cjet.Utf8.{
  Utf8Checker, init_checker, is_byte_valid, check_bytes, complete, is_byte_sequence_valid,
}
use cjet.Utf8.Words.{
  is_fast_word, is_fast_word64, word_bytes, check_words, is_word_sequence_valid,
  is_word64_sequence_valid,
}
use cjet.Utf8.Words.Zones.{IsShortest, skip_word, skip_word64}

-- The state between two characters is the one of a new checker.
abbrev pub IsRunning : Utf8Checker → Type 0
IsRunning c = c.next_byte ≡ 1 → c ≡ init_checker

-- The bytes of all words
abbrev pub all_bytes : ℕ → List ℕ → List ℕ
all_bytes n [] = []
all_bytes n (word ∷ words) = word_bytes n word ++ all_bytes n words

is_byte_valid-IsRunning : (c : Utf8Checker) (byte : ℕ) → IsRunning ((is_byte_valid c byte).1)
unfolding is_byte_valid
is_byte_valid-IsRunning c byte h = ground arith

check_bytes-IsRunning :
    (bytes : List ℕ) (c : Utf8Checker) → IsRunning c → IsRunning ((check_bytes c bytes).1)
unfolding check_bytes
check_bytes-IsRunning [] c running = running
check_bytes-IsRunning (byte ∷ bytes) c running =
    let (ret, next) = is_byte_valid c byte in
    let kept : IsRunning next = is_byte_valid-IsRunning c byte in
    elim ret
      as (λ r. IsRunning (
        (elim r as (λ _. Bool × Utf8Checker) [
          | true ↦ check_bytes next bytes
          | false ↦ (false, next)
        ]).1)) [ true ↦ check_bytes-IsRunning bytes next kept | false ↦ kept ]

-- The bytes of a word, then the others
check_bytes-append :
    (front back : List ℕ) (c : Utf8Checker)
    → check_bytes c (front ++ back) ≡ (
        if (check_bytes c front).0
        then check_bytes ((check_bytes c front).1) back
        else (false, (check_bytes c front).1))
unfolding check_bytes
check_bytes-append [] back c = refl
check_bytes-append (byte ∷ front) back c =
    ground (arith, check_bytes-append front back ((is_byte_valid c byte).1))

-- A loop over words whose fast ones change nothing is the loop over their bytes.
module _ (n : ℕ) (is_fast : ℕ → Bool)
    (skip : (w : ℕ) (rest : List ℕ)
      → All IsShortest (word_bytes n w)
      → is_fast w ≡ true
      → check_bytes init_checker (word_bytes n w ++ rest) ≡ check_bytes init_checker rest) where
  check_words-eq :
      (words : List ℕ) (c : Utf8Checker)
      → IsRunning c
      → All (λ word. All IsShortest (word_bytes n word)) words
      → check_words n is_fast c words ≡ check_bytes c (all_bytes n words)
  unfolding check_words check_bytes
  check_words-eq [] c running shortest = refl
  check_words-eq (word ∷ words) c running shortest =
      let bytes = word_bytes n word in
      let fast : check_words n is_fast c words ≡ check_bytes c (all_bytes n words) =
        check_words-eq words c running shortest.1 in
      let after = (check_bytes c bytes).1 in
      let slow : check_words n is_fast after words ≡ check_bytes after (all_bytes n words) =
        check_words-eq words after (check_bytes-IsRunning bytes c running) shortest.1 in
      let pieces = check_bytes-append bytes (all_bytes n words) c in
      elim (Bool-cases (c.next_byte == 1 && is_fast word)) [
        | inl skipped ↦
            let rest = all_bytes n words in
            let start : c ≡ init_checker = running (ground (arith, skipped)) in
            let is : is_fast word ≡ true = ground (arith, skipped) in
            let jump : check_bytes c (bytes ++ rest) ≡ check_bytes c rest =
              ap (λ d. check_bytes d (bytes ++ rest)) start
              ∙ skip word rest shortest.0 is
              ∙ sym (ap (λ d. check_bytes d rest) start) in
            ground (arith, skipped, fast, jump)
        | inr read ↦ ground (arith, slow, pieces, read)
      ]

-- The checkers of uint32_t and of uint64_t words, from a state that is the initial one between two
-- characters, give the verdict and the state of cjet_is_byte_sequence_valid on the bytes of the
-- words, when none of these bytes is 0xC0 or 0xC1.
pub word_checkers-eq :
    (c : Utf8Checker) (words words64 : List ℕ) (is_complete : Bool)
    → IsRunning c
    → All (λ word. All IsShortest (word_bytes 4 word)) words
    → All (λ word. All IsShortest (word_bytes 8 word)) words64
    → (is_word_sequence_valid c words is_complete
        ≡ is_byte_sequence_valid c (all_bytes 4 words) is_complete)
      × (is_word64_sequence_valid c words64 is_complete
          ≡ is_byte_sequence_valid c (all_bytes 8 words64) is_complete)
unfolding is_word_sequence_valid is_word64_sequence_valid is_byte_sequence_valid
word_checkers-eq c words words64 is_complete running shortest shortest64 = (
  ap (complete is_complete) (check_words-eq 4 is_fast_word skip_word words c running shortest),
  ap (complete is_complete)
      (check_words-eq 8 is_fast_word64 skip_word64 words64 c running shortest64),
)
