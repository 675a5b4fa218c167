-- ===== src/Websocket/Mask.antt =====
-- `unmask_payload` of websocket.c. A buffer is the list of its bytes and the address that it starts at; a
-- word of 8 bytes, the `uint_fast32_t` of 64-bit Linux, is the number that a little-endian machine reads.
pub mod Words
pub mod Bytewise
use cjet.Base.{
  ℕ, zero, suc, ◌+◌, ◌-◌, ◌*◌, ◌/◌, ◌%◌, List, [], ◌∷◌, ◌++◌, length, take, drop, get_or, ltb,
  bit_xor, if◌then◌else◌,
}

-- `mask[i % 4]`
unfoldable pub mask_at : List ℕ → ℕ → ℕ
mask_at mask i = get_or mask (i % 4) 0

-- The loops over single bytes, from the index `i` on
unfoldable pub xor_bytes : List ℕ → ℕ → List ℕ → List ℕ
xor_bytes mask i [] = []
xor_bytes mask i (b ∷ bytes) = bit_xor b (mask_at mask i) ∷ xor_bytes mask (i + 1) bytes

-- A word in memory
unfoldable pub word_of : List ℕ → ℕ
word_of [] = 0
word_of (b ∷ bytes) = b + 256 * word_of bytes

unfoldable pub bytes_of : ℕ → ℕ → List ℕ
bytes_of zero w = []
bytes_of (suc n) w = w % 256 ∷ bytes_of n (w / 256)

-- The loop that fills `aligned_mask`, for `n` more bytes
unfoldable pub mask_filler : List ℕ → ℕ → ℕ → List ℕ
mask_filler mask i zero = []
mask_filler mask i (suc n) = mask_at mask i ∷ mask_filler mask (i + 1) n

-- The loop over the words
unfoldable pub xor_words : ℕ → ℕ → List ℕ → List ℕ
xor_words zero aligned_mask bytes = bytes
xor_words (suc main_length) aligned_mask bytes =
    bytes_of 8 (bit_xor (word_of (take 8 bytes)) aligned_mask)
    ++ xor_words main_length aligned_mask (drop 8 bytes)

-- `unmask_payload`
unfoldable pub unmask_payload : ℕ → List ℕ → List ℕ → List ℕ
unmask_payload address buffer mask =
    let n = length buffer in
    if ltb n 8
    then xor_bytes mask 0 buffer
    else (let pre_length = (8 - address % 8) % 8 in
        let main_length = (n - pre_length) / 8 in
        let post_length = n - pre_length - main_length * 8 in
        let aligned_mask = word_of (mask_filler mask pre_length 8) in
        xor_bytes mask 0 (take pre_length buffer)
        ++ (xor_words main_length aligned_mask (take (main_length * 8) (drop pre_length buffer))
            ++ xor_bytes mask (n - post_length) (drop (main_length * 8) (drop pre_length buffer))))
