-- ===== src/SocketReader.antt =====
-- The reading half of src/buffered_socket.c: a buffer that is filled by the socket and emptied by the
-- callback of the owner. SocketReader/Taking is about one request for bytes, SocketReader/Stream about
-- the loop, which does not depend on how the bytes arrive.
use cjet.Base.{
  ℕ, zero, suc, ◌+◌, ◌-◌, Bool, true, false, not, ◌&&◌, Option, none, some, List, [], ◌∷◌, ◌++◌,
  length, take, drop, ltb, leb, ◌==◌, if◌then◌else◌,
}
pub mod Taking
pub mod Stream

-- What the next call of `socket_read` does: bytes have arrived, the other side has closed, EAGAIN or
-- EWOULDBLOCK, or another error.
pub data Read : Type 0 where
  arrived : List ℕ → Read
  shut : Read
  nothing_yet : Read
  failed : Read

-- `read_buffer` with the bytes from `read_ptr` to `write_ptr`, where they start, and the reads to come.
-- When nothing more is foreseen, they would block.
pub record Reader : Type 0 where
  pub start : ℕ
  pub unread : List ℕ
  pub reads : List Read

-- BS_PEER_CLOSED, BS_IO_WOULD_BLOCK, BS_IO_ERROR and BS_IO_TOOMUCHDATA
pub data Stop : Type 0 where
  peer_closed would_block io_error too_much_data : Stop

-- What `get_read_ptr` hands out: bytes, or why there are none
pub data Taken : Type 0 where
  bytes : List ℕ → Taken
  stopped : Stop → Taken

-- How `go_reading` returns: 0 after the callback has closed or was given no bytes, or the reader's code, where for
-- BS_PEER_CLOSED the callback was told
pub data Ended : Type 0 where
  closed : Ended
  ended : Stop → Ended

-- The call of `socket_read` in `fill_buffer`, for `space` bytes. What does not fit stays with the
-- system.
unfoldable pub read_socket : ℕ → Reader → List Read → Option Stop × Reader
read_socket space r [] = (some would_block, r)
read_socket space r (arrived [] ∷ reads) = (some peer_closed, record r { reads = reads })
read_socket space r (arrived (b ∷ bs) ∷ reads) = (
  none,
  record r {
    unread = r.unread ++ take space (b ∷ bs);
    reads = elim (drop space (b ∷ bs)) [ [] ↦ reads | c ∷ cs ↦ arrived (c ∷ cs) ∷ reads ];
  },
)
read_socket space r (shut ∷ reads) = (some peer_closed, record r { reads = reads })
read_socket space r (nothing_yet ∷ reads) = (some would_block, record r { reads = reads })
read_socket space r (failed ∷ reads) = (some io_error, record r { reads = reads })

unfoldable pub reorganize_read_buffer : Reader → Reader
reorganize_read_buffer r = record r { start = 0 }

-- `max_message_size` is CONFIG_MAX_MESSAGE_SIZE of the generated configuration.
module _ (max_message_size : ℕ) where
  unfoldable pub free_space : Reader → ℕ
  free_space r = max_message_size - (r.start + length r.unread)

  -- `fill_buffer`: `none` stands for the number of bytes that were read.
  unfoldable pub fill_buffer : ℕ → Reader → Option Stop × Reader
  unfolding free_space reorganize_read_buffer read_socket
  fill_buffer count r =
      let r1 = if ltb (free_space r) count then reorganize_read_buffer r else r in
      if ltb (free_space r1) count
      then (some too_much_data, r1)
      else read_socket (free_space r1) r1 r1.reads

  -- `get_read_ptr`; `none` means that the fuel ran out.
  unfoldable pub get_read_ptr : ℕ → ℕ → Reader → Option (Taken × Reader)
  unfolding fill_buffer
  get_read_ptr zero count r = none
  get_read_ptr (suc fuel) count r = elim (leb count (length r.unread)) [
    | true ↦ some (
      bytes (take count r.unread),
      record r { start = r.start + count; unread = drop count r.unread },
    )
    | false ↦
        let (stop, r1) = fill_buffer (count - length r.unread) r in
        elim stop [ none ↦ get_read_ptr fuel count r1 | some why ↦ some (stopped why, r1) ]
  ]

  -- An owner of the socket: the number of bytes of its last `read_exactly`, and its callback, with
  -- whether it returns BS_OK
  module _ {S : Type 0} (wants : S → ℕ) (callback : S → List ℕ → Bool × S) where
    -- `go_reading`; `none` means that the fuel, which counts the callbacks, ran out. Each request is
    -- given fuel for one read of each byte.
    unfoldable pub go_reading : ℕ → S → Reader → Option (Ended × S × Reader)
    unfolding get_read_ptr
    go_reading zero s r = none
    go_reading (suc fuel) s r = elim (get_read_ptr (suc (wants s)) (wants s) r) [
      | none ↦ none
      | some (taken, r1) ↦ elim taken [
        | stopped why ↦ elim why [
          | peer_closed ↦ some (ended peer_closed, (callback s []).1, r1)
          | other ↦ some (ended other, s, r1)
        ]
        | bytes bs ↦
            let (ok, s1) = callback s bs in
            elim (ok && not (length bs == 0)) [
              | true ↦ go_reading fuel s1 r1
              | false ↦ some (closed, s1, r1)
            ]
      ]
    ]
