-- ===== src/Websocket/Mask/Bytewise.antt =====
-- `unmask_payload` of websocket.c against the plain loop over bytes.
use cjet.Base.{
  ℕ, zero, suc, ◌+◌, ◌-◌, ◌*◌, ◌/◌, ◌%◌, ◌<◌, ◌≤◌, List, [], ◌∷◌, ◌++◌, length, take, drop, get_or,
  take-append-drop, length-take, length-drop, All, bit_xor, arith, ◌≡◌, refl, sym, ap, ap₂, ◌∙◌,
  ltb, Bool-cases, inl, inr,
}
use Prim.Native.Nat.{differ}
use cjet.Base.Bits.{bit_xor_step}
use cjet.Websocket.Mask.{
  mask_at, xor_bytes, word_of, bytes_of, mask_filler, xor_words, unmask_payload,
}
use cjet.Websocket.Mask.Words.{differ_lt, IsByte, bit_xor-IsByte, xor_each, bytes_of-bit_xor}

xor_bytes-append :
    (mask : List ℕ) (i : ℕ) (xs ys : List ℕ)
    → xor_bytes mask i (xs ++ ys) ≡ xor_bytes mask i xs ++ xor_bytes mask (i + length xs) ys
unfolding xor_bytes
xor_bytes-append mask i [] ys = ground arith
xor_bytes-append mask i (x ∷ xs) ys =
    let e : i + suc (length xs) ≡ i + 1 + length xs = omega arith in
    ground (arith, e, xor_bytes-append mask (i + 1) xs ys)

xor_bytes-period :
    (mask : List ℕ) (i j : ℕ) (xs : List ℕ)
    → i % 4 ≡ j % 4
    → xor_bytes mask i xs ≡ xor_bytes mask j xs
unfolding xor_bytes mask_at
xor_bytes-period mask i j [] same = refl
xor_bytes-period mask i j (x ∷ xs) same =
    ap₂ (λ h t. h ∷ t) (ap (λ k. bit_xor x (get_or mask k 0)) same)
      (xor_bytes-period mask (i + 1) (j + 1) xs (omega arith))

length-mask_filler : (mask : List ℕ) (i n : ℕ) → length (mask_filler mask i n) ≡ n
unfolding mask_filler
length-mask_filler mask i zero = refl
length-mask_filler mask i (suc n) = ap suc (length-mask_filler mask (i + 1) n)

xor_each-mask_filler :
    (mask : List ℕ) (i : ℕ) (xs : List ℕ)
    → xor_each xs (mask_filler mask i (length xs)) ≡ xor_bytes mask i xs
unfolding xor_each mask_filler xor_bytes
xor_each-mask_filler mask i [] = refl
xor_each-mask_filler mask i (x ∷ xs) =
    ap (λ t. bit_xor x (mask_at mask i) ∷ t) (xor_each-mask_filler mask (i + 1) xs)

get_or-IsByte : (mask : List ℕ) (i : ℕ) → All IsByte mask → IsByte (get_or mask i 0)
get_or-IsByte [] i h = omega arith
get_or-IsByte (m ∷ mask) zero h = h.0
get_or-IsByte (m ∷ mask) (suc i) h = get_or-IsByte mask i h.1

mask_filler-IsByte : (mask : List ℕ) (i n : ℕ) → All IsByte mask → All IsByte (mask_filler mask i n)
unfolding mask_filler mask_at
mask_filler-IsByte mask i zero h = tt
mask_filler-IsByte mask i (suc n) h =
    (get_or-IsByte mask (i % 4) h, mask_filler-IsByte mask (i + 1) n h)

take-IsByte : (n : ℕ) (xs : List ℕ) → All IsByte xs → All IsByte (take n xs)
take-IsByte zero xs h = tt
take-IsByte (suc n) [] h = tt
take-IsByte (suc n) (x ∷ xs) h = (h.0, take-IsByte n xs h.1)

drop-IsByte : (n : ℕ) (xs : List ℕ) → All IsByte xs → All IsByte (drop n xs)
drop-IsByte zero xs h = h
drop-IsByte (suc n) [] h = h
drop-IsByte (suc n) (x ∷ xs) h = drop-IsByte n xs h.1

-- One word at a time is one byte at a time.
xor_words-bytes :
    (mask : List ℕ) (i n : ℕ) (xs : List ℕ)
    → length xs ≡ n * 8
    → All IsByte mask
    → All IsByte xs
    → xor_words n (word_of (mask_filler mask i 8)) xs ≡ xor_bytes mask i xs
unfolding xor_words
xor_words-bytes mask i zero [] len hm hx = unfold xor_bytes in refl
xor_words-bytes mask i zero (x ∷ xs) len hm hx = absurd (omega arith)
xor_words-bytes mask i (suc n) xs len hm hx =
    let eight : length (take 8 xs) ≡ 8 = omega (arith, length-take 8 xs) in
    let first =
      bytes_of-bit_xor (take 8 xs) (mask_filler mask i 8)
        (omega (arith, eight, length-mask_filler mask i 8)) (take-IsByte 8 xs hx)
        (mask_filler-IsByte mask i 8 hm) in
    let rest =
      xor_words-bytes mask i n (drop 8 xs) (omega (arith, length-drop 8 xs)) hm
        (drop-IsByte 8 xs hx) in
    let front : bytes_of 8 (bit_xor (word_of (take 8 xs)) (word_of (mask_filler mask i 8)))
        ≡ xor_bytes mask i (take 8 xs) =
      (ap (λ k. bytes_of k (bit_xor (word_of (take 8 xs)) (word_of (mask_filler mask i 8))))
          (sym eight)
        ∙ first
        ∙ ap (λ k. xor_each (take 8 xs) (mask_filler mask i k)) (sym eight)
        ∙ xor_each-mask_filler mask i (take 8 xs)) in
    let back =
      rest ∙ xor_bytes-period mask i (i + length (take 8 xs)) (drop 8 xs) (omega (arith, eight)) in
    ap₂ (λ f b. f ++ b) front back
    ∙ sym (xor_bytes-append mask i (take 8 xs) (drop 8 xs))
    ∙ ap (xor_bytes mask i) (take-append-drop 8 xs)

-- The three loops over the parts of a long buffer
long_buffer :
    (buffer mask : List ℕ) (pre n : ℕ)
    → pre + n * 8 ≤ length buffer
    → All IsByte mask
    → All IsByte buffer
    → xor_bytes mask 0 (take pre buffer)
        ++ (xor_words n (word_of (mask_filler mask pre 8)) (take (n * 8) (drop pre buffer))
            ++ xor_bytes mask (pre + n * 8) (drop (n * 8) (drop pre buffer)))
      ≡ xor_bytes mask 0 buffer
long_buffer buffer mask pre n fits hm hb =
    let rest = drop pre buffer in
    let len1 : length (take pre buffer) ≡ pre = omega (arith, length-take pre buffer) in
    let len2 : length (take (n * 8) rest) ≡ n * 8 =
      omega (arith, length-take (n * 8) rest, length-drop pre buffer) in
    let words =
      xor_words-bytes mask pre n (take (n * 8) rest) len2 hm
        (take-IsByte (n * 8) rest (drop-IsByte pre buffer hb)) in
    let inner =
      ap₂ (λ f b. f ++ b) words (ap (λ k. xor_bytes mask (pre + k) (drop (n * 8) rest)) (sym len2))
      ∙ sym (xor_bytes-append mask pre (take (n * 8) rest) (drop (n * 8) rest))
      ∙ ap (xor_bytes mask pre) (take-append-drop (n * 8) rest) in
    let start : pre ≡ 0 + length (take pre buffer) = omega (arith, len1) in
    ap (λ b. xor_bytes mask 0 (take pre buffer) ++ b)
      (inner ∙ ap (λ k. xor_bytes mask k rest) start)
    ∙ sym (xor_bytes-append mask 0 (take pre buffer) rest)
    ∙ ap (xor_bytes mask 0) (take-append-drop pre buffer)

-- For bytes, the word-at-a-time unmask_payload does what the loop over single bytes does, at any
-- address of the buffer.
pub unmask_payload-bytewise :
    (address : ℕ) (buffer mask : List ℕ)
    → All IsByte mask
    → All IsByte buffer
    → unmask_payload address buffer mask ≡ xor_bytes mask 0 buffer
unfolding unmask_payload
unmask_payload-bytewise address buffer mask hm hb = elim (Bool-cases (ltb (length buffer) 8)) [
  | inl short ↦ ground (arith, short)
  | inr long ↦
      (let pre = (8 - address % 8) % 8 in
        let n = (length buffer - pre) / 8 in
        let size : 8 ≤ length buffer = ground arith in
        let index : length buffer - (length buffer - pre - n * 8) ≡ pre + n * 8 = omega arith in
        rw (long, index) (long_buffer buffer mask pre n (omega arith) hm hb))
]

differ_twice : (x y : ℕ) → x < 2 → y < 2 → differ (differ x y) y ≡ x
differ_twice zero zero hx hy = refl
differ_twice zero (suc zero) hx hy = refl
differ_twice zero (suc (suc y)) hx hy = absurd (omega arith)
differ_twice (suc zero) zero hx hy = refl
differ_twice (suc zero) (suc zero) hx hy = refl
differ_twice (suc zero) (suc (suc y)) hx hy = absurd (omega arith)
differ_twice (suc (suc x)) y hx hy = absurd (omega arith)

-- The same `^` twice
bit_xor_twice : (n a b : ℕ) → a ≤ n → b ≤ n → bit_xor (bit_xor a b) b ≡ a
bit_xor_twice zero a b ha hb =
    let ea : a ≡ 0 = omega arith in let eb : b ≡ 0 = omega arith in rw (ea, eb) refl
bit_xor_twice (suc n) a b ha hb =
    let x = bit_xor a b in
    let d = differ_lt (a % 2) (b % 2) (omega arith) (omega arith) in
    let low : x % 2 ≡ differ (a % 2) (b % 2) = omega (arith, bit_xor_step a b, d) in
    let high : x / 2 ≡ bit_xor (a / 2) (b / 2) = omega (arith, bit_xor_step a b, d) in
    ground (
      arith,
      bit_xor_step x b,
      low,
      high,
      bit_xor_twice n (a / 2) (b / 2) (omega arith) (omega arith),
      differ_twice (a % 2) (b % 2) (omega arith) (omega arith),
    )

xor_bytes_twice :
    (mask : List ℕ) (i : ℕ) (xs : List ℕ) → xor_bytes mask i (xor_bytes mask i xs) ≡ xs
unfolding xor_bytes
xor_bytes_twice mask i [] = refl
xor_bytes_twice mask i (x ∷ xs) =
    let m = mask_at mask i in
    ap₂ (λ h t. h ∷ t) (bit_xor_twice (x + m) x m (omega arith) (omega arith))
      (xor_bytes_twice mask (i + 1) xs)

xor_bytes-IsByte :
    (mask : List ℕ) (i : ℕ) (xs : List ℕ)
    → All IsByte mask
    → All IsByte xs
    → All IsByte (xor_bytes mask i xs)
unfolding xor_bytes mask_at
xor_bytes-IsByte mask i [] hm hx = tt
xor_bytes-IsByte mask i (x ∷ xs) hm hx = (
  bit_xor-IsByte x (get_or mask (i % 4) 0) hx.0 (get_or-IsByte mask (i % 4) hm),
  xor_bytes-IsByte mask (i + 1) xs hm hx.1,
)

pub unmask_payload-IsByte :
    (address : ℕ) (buffer mask : List ℕ)
    → All IsByte mask
    → All IsByte buffer
    → All IsByte (unmask_payload address buffer mask)
unmask_payload-IsByte address buffer mask hm hb =
    rw (unmask_payload-bytewise address buffer mask hm hb) (xor_bytes-IsByte mask 0 buffer hm hb)

-- For bytes, masking twice with one mask, at any two addresses, gives the buffer back.
pub unmask_payload_twice :
    (here there : ℕ) (buffer mask : List ℕ)
    → All IsByte mask
    → All IsByte buffer
    → unmask_payload there (unmask_payload here buffer mask) mask ≡ buffer
unmask_payload_twice here there buffer mask hm hb =
    unmask_payload-bytewise there (unmask_payload here buffer mask) mask hm
      (unmask_payload-IsByte here buffer mask hm hb)
    ∙ ap (xor_bytes mask 0) (unmask_payload-bytewise here buffer mask hm hb)
    ∙ xor_bytes_twice mask 0 buffer

length-xor_bytes : (mask : List ℕ) (i : ℕ) (xs : List ℕ) → length (xor_bytes mask i xs) ≡ length xs
unfolding xor_bytes
length-xor_bytes mask i [] = refl
length-xor_bytes mask i (x ∷ xs) = ap suc (length-xor_bytes mask (i + 1) xs)

pub length-unmask_payload :
    (address : ℕ) (buffer mask : List ℕ)
    → All IsByte mask
    → All IsByte buffer
    → length (unmask_payload address buffer mask) ≡ length buffer
length-unmask_payload address buffer mask hm hb =
    rw (unmask_payload-bytewise address buffer mask hm hb) (length-xor_bytes mask 0 buffer)
