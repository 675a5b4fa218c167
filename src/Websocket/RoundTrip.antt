-- ===== src/Websocket/RoundTrip.antt =====
-- What `send_frame` of websocket.c writes, read by the callbacks of the other end.
use cjet.Base.{
  ℕ, zero, suc, ◌/◌, ◌<◌, Bool, true, false, not, ◌&&◌, List, [], ◌∷◌, ◌++◌, length, take,
  take-append, drop-append, length-append, ltb, ◌==◌, bit_and, bit_or, if◌then◌else◌, ◌≡◌, refl,
  sym, ap, ◌∙◌, arith, Bool-cases, inl, inr, ◌⊎◌,
}
use cjet.Base.Endian.{
  big_endian, big_endian_bytes, byte_bound, big_endian_bytes_back, length-big_endian_bytes,
}
use cjet.Base.Bits.{passes_up_to, passes_up_to_lem}
use cjet.Websocket.Mask.{unmask_payload}
use cjet.Websocket.Frame.{
  Websocket, Callback, Outcome, get_payload, get_mask, read_mask_or_payload, get_length,
  get_first_length, call, read_frame, length_field,
}

-- The bits of the first byte, for every opcode
unfoldable pub header_test : ℕ → Bool
header_test type =
    (bit_and (bit_or type 0x80) 0x80 == 0x80)
    && (bit_and (bit_or type 0x80) 0x70 / 16 == 0)
    && (bit_and (bit_or type 0x80) 0x0F == type)

-- The bits of the second byte, for every `first_len`
unfoldable pub length_test : ℕ → Bool
length_test n =
    (bit_and (bit_or n 0x80) 0x80 == 0x80)
    && (bit_and (bit_or n 0x80) 0x7F == n)
    && not (bit_and n 0x80 == 0x80)
    && (bit_and n 0x7F == n)

header_table : passes_up_to header_test 16 ≡ true
unfolding passes_up_to header_test
header_table = refl

length_table : passes_up_to length_test 128 ≡ true
unfolding passes_up_to length_test
length_table = refl

pub header_byte : (type : ℕ) → type < 16 → header_test type ≡ true
header_byte type small = passes_up_to_lem header_test 16 {k = type} small header_table

pub length_byte : (n : ℕ) → n < 128 → length_test n ≡ true
length_byte n small = passes_up_to_lem length_test 128 {k = n} small length_table

module _ (is_server : Bool) (address : ℕ) where
  pub read_step :
      (fuel n : ℕ) (callback : Callback) (s : Websocket) (xs ys : List ℕ)
      → length xs ≡ n
      → read_frame is_server address (suc fuel) (Outcome.read_exactly n callback s) (xs ++ ys)
        ≡ read_frame is_server address fuel (call is_server address callback s xs) ys
  unfolding read_frame
  read_step fuel n callback s xs ys len =
      let there : ltb (length (xs ++ ys)) n ≡ false = ground (arith, length-append xs ys) in
      rw there (rw (sym len) (rw (take-append xs ys, drop-append xs ys) refl))

  read_done :
      (fuel : ℕ) (s : Websocket) (payload bytes : List ℕ)
      → read_frame is_server address fuel (Outcome.handle_frame s payload) bytes
        ≡ (Outcome.handle_frame s payload, bytes)
  unfolding read_frame
  read_done zero s payload bytes = refl
  read_done (suc fuel) s payload bytes = refl

-- A client reads the payload of a frame without a mask.
pub read_plain :
    (address fuel : ℕ) (s : Websocket) (payload rest : List ℕ)
    → s.masked ≡ 0
    → s.length ≡ length payload
    → read_frame false address (suc fuel) (read_mask_or_payload false address s) (payload ++ rest)
      ≡ (Outcome.handle_frame s payload, rest)
unfolding read_mask_or_payload get_payload
read_plain address fuel s [] rest plain len =
    ground (arith, read_done false address (suc fuel) s [] rest)
read_plain address fuel s (b ∷ payload) rest plain len =
    let start : read_mask_or_payload false address s
        ≡ Outcome.read_exactly s.length Callback.ws_get_payload s =
      ground arith in
    let got : call false address Callback.ws_get_payload s (b ∷ payload)
        ≡ Outcome.handle_frame s (b ∷ payload) =
      (unfold call in ground arith) in
    rw start (
      read_step false address fuel s.length Callback.ws_get_payload s (b ∷ payload) rest (sym len)
      ∙ ap (λ o. read_frame false address fuel o rest) got
      ∙ read_done false address fuel s (b ∷ payload) rest)

take_all : (n : ℕ) (xs : List ℕ) → length xs ≡ n → take n xs ≡ xs
take_all zero [] len = refl
take_all zero (x ∷ xs) len = absurd (omega arith)
take_all (suc n) [] len = refl
take_all (suc n) (x ∷ xs) len = ap (λ t. x ∷ t) (take_all n xs (omega arith))

got_mask :
    (address : ℕ) (s : Websocket) (mask : List ℕ)
    → length mask ≡ 4
    → call true address Callback.ws_get_mask s mask ≡ (
        if ltb 0 s.length
        then Outcome.read_exactly s.length Callback.ws_get_payload (record s { mask = mask })
        else get_payload true address (record s { mask = mask }) [])
unfolding call get_mask
got_mask address s [] four = absurd (omega arith)
got_mask address s (b ∷ mask) four = rw (take_all 4 (b ∷ mask) four) refl

got_payload :
    (address fuel : ℕ) (s : Websocket) (payload rest : List ℕ)
    → s.masked ≡ 1
    → s.length ≡ length payload
    → read_frame true address
        (suc fuel)
        (if ltb 0 s.length
          then Outcome.read_exactly s.length Callback.ws_get_payload s
          else get_payload true address s [])
        (payload ++ rest)
      ≡ (Outcome.handle_frame s (unmask_payload address payload s.mask), rest)
unfolding get_payload
got_payload address fuel s [] rest masked len =
    ground (arith, read_done true address (suc fuel) s (unmask_payload address [] s.mask) rest)
got_payload address fuel s (b ∷ payload) rest masked len =
    let some_bytes : ltb 0 s.length ≡ true = ground arith in
    let got : call true address Callback.ws_get_payload s (b ∷ payload)
        ≡ Outcome.handle_frame s (unmask_payload address (b ∷ payload) s.mask) =
      (unfold call in ground arith) in
    rw some_bytes (
      read_step true address fuel s.length Callback.ws_get_payload s (b ∷ payload) rest (sym len)
      ∙ ap (λ o. read_frame true address fuel o rest) got
      ∙ read_done true address fuel s (unmask_payload address (b ∷ payload) s.mask) rest)

-- A server reads the mask, and takes it off the payload.
pub read_masked :
    (address fuel : ℕ) (s : Websocket) (mask payload rest : List ℕ)
    → s.masked ≡ 1
    → s.length ≡ length payload
    → length mask ≡ 4
    → read_frame true address
        (suc (suc fuel))
        (read_mask_or_payload true address s)
        (mask ++ (payload ++ rest))
      ≡ (
        Outcome.handle_frame (record s { mask = mask }) (unmask_payload address payload mask),
        rest,
      )
unfolding read_mask_or_payload
read_masked address fuel s mask payload rest masked len four =
    let start : read_mask_or_payload true address s
        ≡ Outcome.read_exactly 4 Callback.ws_get_mask s =
      ground arith in
    rw start (
      read_step true address (suc fuel) 4 Callback.ws_get_mask s mask (payload ++ rest) four
      ∙ ap (λ o. read_frame true address (suc fuel) o (payload ++ rest))
          (got_mask address s mask four)
      ∙ got_payload address fuel (record s { mask = mask }) payload rest masked len)

got_length :
    (is_server : Bool) (address : ℕ) (s : Websocket) (xs : List ℕ)
    → 0 < length xs
    → get_length is_server address s xs
      ≡ read_mask_or_payload is_server address (record s { length = big_endian 0 xs })
unfolding get_length
got_length is_server address s [] some_bytes = absurd (omega arith)
got_length is_server address s (x ∷ xs) some_bytes = refl

-- The length of two or of eight bytes
long_length :
    (is_server : Bool) (address fuel k n : ℕ) (callback : Callback) (s : Websocket) (more : List ℕ)
    → ((xs : List ℕ) → call is_server address callback s xs ≡ get_length is_server address s xs)
    → 0 < k
    → n < byte_bound k
    → read_frame is_server address
        (suc fuel)
        (Outcome.read_exactly k callback s)
        (big_endian_bytes k n ++ more)
      ≡ read_frame is_server address fuel
          (read_mask_or_payload is_server address (record s { length = n }))
          more
long_length is_server address fuel k n callback s more same pos small =
    let xs = big_endian_bytes k n in
    let size = length-big_endian_bytes k n in
    read_step is_server address fuel k callback s xs more size
    ∙ ap (λ o. read_frame is_server address fuel o more)
        (same xs
          ∙ got_length is_server address s xs (omega (arith, size))
          ∙ ap (λ v. read_mask_or_payload is_server address (record s { length = v }))
              (big_endian_bytes_back k n small))

-- The second byte and the length: a longer one takes one more read.
pub read_length :
    (is_server : Bool) (address fuel b n flag : ℕ) (s : Websocket) (more : List ℕ)
    → n < byte_bound 8
    → bit_and b 0x7F ≡ (length_field n).0
    → (if bit_and b 0x80 == 0x80 then 1 else 0) ≡ flag
    → (read_frame is_server address
          (suc fuel)
          (call is_server address Callback.ws_get_first_length s (b ∷ []))
          ((length_field n).1 ++ more)
        ≡ read_frame is_server address
            (suc fuel)
            (read_mask_or_payload is_server address (record s { masked = flag; length = n }))
            more)
      ⊎ (read_frame is_server address
            (suc fuel)
            (call is_server address Callback.ws_get_first_length s (b ∷ []))
            ((length_field n).1 ++ more)
          ≡ read_frame is_server address fuel
              (read_mask_or_payload is_server address (record s { masked = flag; length = n }))
              more)
unfolding call get_first_length length_field
read_length is_server address fuel b n flag s more small field set =
    let s1 = record s { masked = flag } in
    elim (Bool-cases (ltb n 126)) [
      | inl short ↦ inl (let f : bit_and b 0x7F ≡ n = ground arith in rw (f, short, set) refl)
      | inr not_short ↦ elim (Bool-cases (ltb n 65536)) [
        | inl middle ↦ inr (
            let f : bit_and b 0x7F ≡ 126 = ground arith in
            rw (f, not_short, middle, set)
              (long_length is_server address fuel 2 n Callback.ws_get_length16 s1 more (λ xs. refl)
                (omega arith) (ground arith)))
        | inr large ↦ inr (
            let f : bit_and b 0x7F ≡ 127 = ground arith in
            rw (f, not_short, large, set)
              (long_length is_server address fuel 8 n Callback.ws_get_length64 s1 more (λ xs. refl)
                (omega arith) small))
      ]
    ]
