-- ===== src/BufferedSocket.antt =====
-- The writing half of src/buffered_socket.c. A socket keeps what it could not write in a buffer and
-- sends it before anything later. BufferedSocket/Copying and
-- BufferedSocket/Order are about the order of the bytes.
use cjet.Base.{
  ℕ, ◌+◌, ◌-◌, Bool, true, false, List, [], ◌∷◌, ◌++◌, length, take, drop, ltb, leb, ◌==◌, min,
  if◌then◌else◌,
}
mod Copying
pub mod Order

-- What the next call of `socket_writev_with_prefix` does: it takes at most so many bytes, or fails with
-- EAGAIN or EWOULDBLOCK, or with another error.
pub data Write : Type 0 where
  written : ℕ → Write
  would_block : Write
  failed : Write

-- The first `to_write` bytes of `write_buffer`, the bytes that the system has taken so far, and what the
-- next calls do. When nothing more is foreseen, they would block.
pub record BufferedSocket : Type 0 where
  pub write_buffer : List ℕ
  pub wire : List ℕ
  pub writes : List Write

-- The loop of `send_buffer`, with the start of `write_buffer`, which stays as it is on an error, and
-- the bytes at `write_buffer_ptr`. The Boolean says whether the function returns 0.
unfoldable pub send_rest : List Write → List ℕ → List ℕ → List ℕ → Bool × BufferedSocket
send_rest writes start [] wire = (true, record { write_buffer = []; wire = wire; writes = writes })
send_rest [] start (b ∷ bs) wire =
    (true, record { write_buffer = b ∷ bs; wire = wire; writes = [] })
send_rest (Write.written n ∷ writes) start (b ∷ bs) wire =
    send_rest writes start (drop n (b ∷ bs)) (wire ++ take n (b ∷ bs))
send_rest (Write.would_block ∷ writes) start (b ∷ bs) wire =
    (true, record { write_buffer = b ∷ bs; wire = wire; writes = writes })
send_rest (Write.failed ∷ writes) start (b ∷ bs) wire =
    (false, record { write_buffer = take (length (b ∷ bs)) start; wire = wire; writes = writes })

-- `send_buffer`
unfoldable pub send_buffer : BufferedSocket → Bool × BufferedSocket
unfolding send_rest
send_buffer bs = send_rest bs.writes bs.write_buffer bs.write_buffer bs.wire

-- The bytes of all vectors
abbrev pub joined : List (List ℕ) → List ℕ
joined [] = []
joined (io ∷ io_vec) = io ++ joined io_vec

-- `CONFIG_MAX_WRITE_BUFFER_SIZE` of the generated configuration
module _ (max_write_buffer_size : ℕ) where
  -- `copy_single_buffer`: the buffer after it
  unfoldable pub copy_single_buffer : List ℕ → List ℕ → Bool × List ℕ
  copy_single_buffer buffer bytes =
      if ltb (max_write_buffer_size - length buffer) (length bytes)
      then (false, buffer)
      else (true, buffer ++ bytes)

  -- The loop of `copy_iovec_to_write_buffer`
  unfoldable pub copy_iovec_to_write_buffer : List (List ℕ) → ℕ → List ℕ → Bool × List ℕ
  unfolding copy_single_buffer
  copy_iovec_to_write_buffer [] iovec_written buffer = (true, buffer)
  copy_iovec_to_write_buffer (io ∷ io_vec) iovec_written buffer =
      let (copied, buffer1) = copy_single_buffer buffer (drop iovec_written io) in
      let next = copy_iovec_to_write_buffer io_vec 0 buffer1 in
      let skipped = copy_iovec_to_write_buffer io_vec (iovec_written - length io) buffer in
      if ltb iovec_written (length io) then (if copied then next else (false, buffer1)) else skipped

  -- What `buffered_socket_writev` keeps of the bytes after the first `sent` of all
  unfoldable pub keep_rest : List (List ℕ) → ℕ → List ℕ → Bool × List ℕ
  unfolding copy_iovec_to_write_buffer
  keep_rest io_vec sent buffer =
      if leb sent (length buffer)
      then copy_iovec_to_write_buffer io_vec 0 (drop sent buffer)
      else copy_iovec_to_write_buffer io_vec (sent - length buffer) []

  -- `buffered_socket_writev` when its first call would block
  unfoldable pub writev_blocked :
      List (List ℕ) → List Write → BufferedSocket → Bool × BufferedSocket
  unfolding keep_rest
  writev_blocked io_vec writes bs =
      let (kept, buffer) = keep_rest io_vec 0 bs.write_buffer in
      (kept, record { write_buffer = buffer; wire = bs.wire; writes = writes })

  -- `buffered_socket_writev` when its first call takes `sent` of the bytes
  unfoldable pub writev_sent :
      List (List ℕ) → ℕ → List Write → BufferedSocket → Bool × BufferedSocket
  unfolding keep_rest send_buffer
  writev_sent io_vec sent writes bs =
      let all = bs.write_buffer ++ joined io_vec in
      let wire = bs.wire ++ take sent all in
      let (kept, buffer) = keep_rest io_vec sent bs.write_buffer in
      let rest : BufferedSocket = record { write_buffer = buffer; wire = wire; writes = writes } in
      let sent_rest = send_buffer rest in
      if sent == length all
      then (true, record { write_buffer = []; wire = wire; writes = writes })
      else (if kept then sent_rest else (false, rest))

  -- `buffered_socket_writev` from its first call of `socket_writev_with_prefix` on
  unfoldable pub first_write : List (List ℕ) → BufferedSocket → List Write → Bool × BufferedSocket
  unfolding writev_blocked writev_sent
  first_write io_vec bs [] = writev_blocked io_vec [] bs
  first_write io_vec bs (Write.would_block ∷ writes) = writev_blocked io_vec writes bs
  first_write io_vec bs (Write.failed ∷ writes) =
      (false, record { write_buffer = bs.write_buffer; wire = bs.wire; writes = writes })
  first_write io_vec bs (Write.written n ∷ writes) =
      writev_sent io_vec (min n (length (bs.write_buffer ++ joined io_vec))) writes bs

  -- `buffered_socket_writev`
  unfoldable pub buffered_socket_writev : List (List ℕ) → BufferedSocket → Bool × BufferedSocket
  unfolding first_write
  buffered_socket_writev io_vec bs = first_write io_vec bs bs.writes
