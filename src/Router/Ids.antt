-- ===== src/Router/Ids.antt =====
-- The routed ids that router.c prints: the number of the request can be read from them.
use cjet.Base.{
  ℕ, zero, suc, ◌+◌, ◌-◌, ◌*◌, ◌/◌, ◌%◌, ◌^◌, ◌<◌, Bool, true, false, Option, none, some, [], ◌∷◌,
  ◌++◌, ltb, ◌≡◌, ◌≢◌, ◌∙◌, sym, ap, refl, All, take, length, length-append, All-append,
  append_assoc, arith, if◌then◌else◌,
}
use native.Mathlib.Nat.{pow-suc}
use cjet.Base.Str.{Str}
use mathlib.Core.Path.{subst}
use cjet.Json.{Json, Platform}
use cjet.Router.{hex_digit, hex_digits, id_text, routed_request_id}

digit_value : ℕ → ℕ
digit_value c = if ltb c b'a' then c - b'0' else c - b'a' + 10

-- The number that a text of hexadecimal digits stands for, after the digits of `n`
read_hex : ℕ → Str → ℕ
read_hex n [] = n
read_hex n (c ∷ s) = read_hex (n * 16 + digit_value c) s

read_hex-append : (n : ℕ) (s t : Str) → read_hex n (s ++ t) ≡ read_hex (read_hex n s) t
unfolding read_hex
read_hex-append n [] t = refl
read_hex-append n (c ∷ s) t = read_hex-append (n * 16 + digit_value c) s t

digit_value-hex_digit : (d : ℕ) → d < 16 → digit_value (hex_digit d) ≡ d
unfolding digit_value hex_digit
digit_value-hex_digit d small = ground arith

read_hex-hex_digits : (fuel n : ℕ) → n < 16 ^ fuel → read_hex 0 (hex_digits fuel n) ≡ n
unfolding hex_digits read_hex
read_hex-hex_digits zero n small = ground arith
read_hex-hex_digits (suc fuel) n small = ground (
  arith,
  read_hex-append 0 (hex_digits fuel (n / 16)) (hex_digit (n % 16) ∷ []),
  digit_value-hex_digit n,
  digit_value-hex_digit (n % 16) (omega arith),
  read_hex-hex_digits fuel (n / 16) (omega (arith, pow-suc 16 fuel)),
)

-- A text without underscores
abbrev pub IsPlain : Str → Type 0
IsPlain s = All (λ c. c ≢ b'_') s

hex_digit-plain : (d : ℕ) → d < 16 → hex_digit d ≢ b'_'
unfolding hex_digit
hex_digit-plain d small = ground arith

hex_digits-IsPlain : (fuel n : ℕ) → IsPlain (hex_digits fuel n)
unfolding hex_digits
hex_digits-IsPlain zero n = tt
hex_digits-IsPlain (suc fuel) n = by_size (ltb n 16) refl (hex_digits-IsPlain fuel (n / 16))
  where
    by_size :
        (b : Bool)
        → ltb n 16 ≡ b
        → IsPlain (hex_digits fuel (n / 16))
        → IsPlain
            (if b then hex_digit n ∷ [] else hex_digits fuel (n / 16) ++ (hex_digit (n % 16) ∷ []))
    by_size true small plain = (hex_digit-plain n (ground arith), tt)
    by_size false large plain =
        All-append (λ c. c ≢ b'_') (hex_digits fuel (n / 16)) (hex_digit (n % 16) ∷ []) plain
          (hex_digit-plain (n % 16) (omega arith), tt)

take-IsPlain : (n : ℕ) (s : Str) → IsPlain s → IsPlain (take n s)
take-IsPlain zero s plain = tt
take-IsPlain (suc n) [] plain = tt
take-IsPlain (suc n) (c ∷ s) (c_plain, plain) = (c_plain, take-IsPlain n s plain)

not-IsPlain : (xs ys : Str) → IsPlain (xs ++ (b'_' ∷ ys)) → ⊥
not-IsPlain [] ys plain = plain.0 refl
not-IsPlain (x ∷ xs) ys plain = not-IsPlain xs ys plain.1

-- What stands before and behind the last underscore
last_underscore :
    (xs xs' ys ys' : Str)
    → IsPlain ys
    → IsPlain ys'
    → xs ++ (b'_' ∷ ys) ≡ xs' ++ (b'_' ∷ ys')
    → (xs ≡ xs') × (ys ≡ ys')
last_underscore [] [] ys ys' p p' e = (refl, cc)
last_underscore [] (x ∷ xs') ys ys' p p' e =
    let behind : ys ≡ xs' ++ (b'_' ∷ ys') = cc in
    absurd (not-IsPlain xs' ys' (subst IsPlain behind p))
last_underscore (x ∷ xs) [] ys ys' p p' e =
    let behind : xs ++ (b'_' ∷ ys) ≡ ys' = cc in
    absurd (not-IsPlain xs ys (subst IsPlain (sym behind) p'))
last_underscore (x ∷ xs) (x' ∷ xs') ys ys' p p' e =
    let rest : xs ++ (b'_' ∷ ys) ≡ xs' ++ (b'_' ∷ ys') = cc in
    let heads : x ≡ x' = cc in
    let (fronts, backs) = last_underscore xs xs' ys ys' p p' rest in (cc (heads, fronts), backs)

-- The cut of the last character
cut :
    (xs : Str) (c : ℕ) (ys : Str)
    → take (length (xs ++ (c ∷ ys)) - 1) (xs ++ (c ∷ ys)) ≡ xs ++ take (length ys) (c ∷ ys)
cut [] c ys = let n : suc (length ys) - 1 ≡ length ys = omega arith in ap (λ k. take k (c ∷ ys)) n
cut (x ∷ xs) c ys =
    let rest = xs ++ (c ∷ ys) in
    let n : suc (length rest) - 1 ≡ suc (length rest - 1) =
      omega (arith, length-append xs (c ∷ ys)) in
    ap (λ k. take k (x ∷ rest)) n ∙ ap (λ t. x ∷ t) (cut xs c ys)

cut_pointer :
    (xs ptr : Str)
    → 0 < length ptr
    → take (length (xs ++ (b'_' ∷ ptr)) - 1) (xs ++ (b'_' ∷ ptr))
      ≡ xs ++ (b'_' ∷ take (length ptr - 1) ptr)
cut_pointer xs [] some_text = absurd (omega arith)
cut_pointer xs (c ∷ ptr) some_text =
    let n : suc (length ptr) - 1 ≡ length ptr = omega arith in
    cut xs b'_' (c ∷ ptr) ∙ ap (λ k. xs ++ (b'_' ∷ take k (c ∷ ptr))) (sym n)

-- The id before the underscore of the pointer
front : ℕ → Option Json → Str
front uuid none = hex_digits 8 uuid
front uuid (some id) = id_text id ++ (b'_' ∷ hex_digits 8 uuid)

-- What `%p` prints, as the C library documents it for Linux: some text, hexadecimal, without underscores
abbrev pub IsPointer : Str → Type 0
IsPointer s = (0 < length s) × IsPlain s

fronts-eq :
    (u v : ℕ) (o o' : Option Json) → front u o ≡ front v o' → hex_digits 8 u ≡ hex_digits 8 v
unfolding front
fronts-eq u v none none e = e
fronts-eq u v none (some b) e =
    absurd (not-IsPlain (id_text b) (hex_digits 8 v) (subst IsPlain e (hex_digits-IsPlain 8 u)))
fronts-eq u v (some a) none e =
    absurd
      (not-IsPlain (id_text a) (hex_digits 8 u) (subst IsPlain (sym e) (hex_digits-IsPlain 8 v)))
fronts-eq u v (some a) (some b) e =
    (last_underscore (id_text a) (id_text b) (hex_digits 8 u) (hex_digits 8 v)
      (hex_digits-IsPlain 8 u) (hex_digits-IsPlain 8 v) e).1

module _ (g : Platform) where
  id_shape :
      (uuid address : ℕ) (o : Option Json)
      → 0 < length (g.format_pointer address)
      → routed_request_id g uuid address o
        ≡ front uuid o
          ++ (b'_' ∷ take (length (g.format_pointer address) - 1) (g.format_pointer address))
  unfolding routed_request_id front
  id_shape uuid address none some_text =
      cut_pointer (hex_digits 8 uuid) (g.format_pointer address) some_text
  id_shape uuid address (some id) some_text =
      let ptr = g.format_pointer address in
      ap (λ t. take (length t - 1) t)
        (sym (append_assoc (id_text id) (b'_' ∷ hex_digits 8 uuid) (b'_' ∷ ptr)))
      ∙ cut_pointer (id_text id ++ (b'_' ∷ hex_digits 8 uuid)) ptr some_text

  routed_request_id-uuid :
      (u v a b : ℕ) (o o' : Option Json)
      → u < 2 ^ 32
      → v < 2 ^ 32
      → IsPointer (g.format_pointer a)
      → IsPointer (g.format_pointer b)
      → routed_request_id g u a o ≡ routed_request_id g v b o'
      → u ≡ v
  routed_request_id-uuid u v a b o o' hu hv (some_a, plain_a) (some_b, plain_b) same =
      let ptr_a = g.format_pointer a in
      let ptr_b = g.format_pointer b in
      let e = sym (id_shape u a o some_a) ∙ (same ∙ id_shape v b o' some_b) in
      let (fronts, _) =
        last_underscore (front u o) (front v o') (take (length ptr_a - 1) ptr_a)
          (take (length ptr_b - 1) ptr_b) (take-IsPlain (length ptr_a - 1) ptr_a plain_a)
          (take-IsPlain (length ptr_b - 1) ptr_b plain_b) e in
      sym (read_hex-hex_digits 8 u (omega arith))
      ∙ ap (read_hex 0) (fronts-eq u v o o' fronts)
      ∙ read_hex-hex_digits 8 v (omega arith)

  -- On a platform whose %p prints some text without underscores, two routed requests with
  -- different numbers get different ids, whatever the ids of their origins and the addresses of
  -- their peers, although the last character is cut off.
  pub routed_request_id_distinct :
      (u v a b : ℕ) (o o' : Option Json)
      → u < 2 ^ 32
      → v < 2 ^ 32
      → IsPointer (g.format_pointer a)
      → IsPointer (g.format_pointer b)
      → u ≢ v
      → routed_request_id g u a o ≢ routed_request_id g v b o'
  routed_request_id_distinct u v a b o o' hu hv pa pb other same =
      other (routed_request_id-uuid u v a b o o' hu hv pa pb same)
