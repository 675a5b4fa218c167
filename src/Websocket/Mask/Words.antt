-- ===== src/Websocket/Mask/Words.antt =====
-- The `^` of two words, byte by byte.
use cjet.Base.{
  ℕ, zero, suc, ◌+◌, ◌*◌, ◌/◌, ◌%◌, ◌<◌, List, [], ◌∷◌, length, All, bit_xor, arith, ◌≡◌, refl, ap,
  ap₂, ◌∙◌,
}
use Prim.Native.Nat.{differ}
use cjet.Base.Bits.{bit_xor_step}
use cjet.Websocket.Mask.{word_of, bytes_of}

-- `x` times 2 to the `k`
shift : ℕ → ℕ → ℕ
shift zero x = x
shift (suc k) x = 2 * shift k x

bit_xor-shift :
    (k a b x y : ℕ)
    → a < shift k 1
    → b < shift k 1
    → bit_xor (a + shift k x) (b + shift k y) ≡ bit_xor a b + shift k (bit_xor x y)
unfolding shift
bit_xor-shift zero a b x y ha hb = ground (arith, bit_xor_step 0 0)
bit_xor-shift (suc k) a b x y ha hb =
    let ih = bit_xor-shift k (a / 2) (b / 2) x y (omega arith) (omega arith) in
    let ea : (a + 2 * shift k x) / 2 ≡ a / 2 + shift k x = omega arith in
    let eb : (b + 2 * shift k y) / 2 ≡ b / 2 + shift k y = omega arith in
    let fa : (a + 2 * shift k x) % 2 ≡ a % 2 = omega arith in
    let fb : (b + 2 * shift k y) % 2 ≡ b % 2 = omega arith in
    ground (
      arith,
      bit_xor_step (a + 2 * shift k x) (b + 2 * shift k y),
      bit_xor_step a b,
      ih,
      ea,
      eb,
      fa,
      fb,
    )

pub differ_lt : (x y : ℕ) → x < 2 → y < 2 → differ x y < 2
differ_lt zero y hx hy = hy
differ_lt (suc x) zero hx hy = hx
differ_lt (suc x) (suc y) hx hy = differ_lt x y (omega arith) (omega arith)

bit_xor_lt : (k a b : ℕ) → a < shift k 1 → b < shift k 1 → bit_xor a b < shift k 1
unfolding shift
bit_xor_lt zero a b ha hb = ground (arith, bit_xor_step 0 0)
bit_xor_lt (suc k) a b ha hb = omega (
  arith,
  bit_xor_step a b,
  differ_lt (a % 2) (b % 2) (omega arith) (omega arith),
  bit_xor_lt k (a / 2) (b / 2) (omega arith) (omega arith),
)

abbrev pub IsByte : ℕ → Type 0
IsByte b = b < 256

pub bit_xor-IsByte : (a b : ℕ) → IsByte a → IsByte b → IsByte (bit_xor a b)
unfolding shift
bit_xor-IsByte a b ha hb = bit_xor_lt 8 a b ha hb

-- The lowest byte of a word goes with the lowest byte of the other.
bit_xor_bytes :
    (a b x y : ℕ)
    → IsByte a
    → IsByte b
    → bit_xor (a + 256 * x) (b + 256 * y) ≡ bit_xor a b + 256 * bit_xor x y
unfolding shift
bit_xor_bytes a b x y ha hb =
    let t = bit_xor-shift 8 a b x y ha hb in
    let ex : 256 * x ≡ shift 8 x = omega arith in
    let ey : 256 * y ≡ shift 8 y = omega arith in
    let ez : 256 * bit_xor x y ≡ shift 8 (bit_xor x y) = omega arith in rw (ex, ey, ez) t

-- Byte by byte, as long as both lists last
unfoldable pub xor_each : List ℕ → List ℕ → List ℕ
xor_each [] ms = []
xor_each (b ∷ bs) [] = []
xor_each (b ∷ bs) (m ∷ ms) = bit_xor b m ∷ xor_each bs ms

pub bytes_of-bit_xor :
    (bs ms : List ℕ)
    → length bs ≡ length ms
    → All IsByte bs
    → All IsByte ms
    → bytes_of (length bs) (bit_xor (word_of bs) (word_of ms)) ≡ xor_each bs ms
unfolding bytes_of word_of xor_each
bytes_of-bit_xor [] ms same hb hm = refl
bytes_of-bit_xor (b ∷ bs) [] same hb hm = absurd (omega arith)
bytes_of-bit_xor (b ∷ bs) (m ∷ ms) same hb hm =
    let x = word_of bs in
    let y = word_of ms in
    let both = bit_xor_bytes b m x y hb.0 hm.0 in
    let small = bit_xor-IsByte b m hb.0 hm.0 in
    let low : bit_xor (b + 256 * x) (m + 256 * y) % 256 ≡ bit_xor b m =
      omega (arith, both, small) in
    let high : bit_xor (b + 256 * x) (m + 256 * y) / 256 ≡ bit_xor x y =
      omega (arith, both, small) in
    ap₂ (λ h t. h ∷ t) low
      (ap (bytes_of (length bs)) high ∙ bytes_of-bit_xor bs ms (omega arith) hb.1 hm.1)
