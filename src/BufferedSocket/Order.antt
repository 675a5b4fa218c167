-- ===== src/BufferedSocket/Order.antt =====
-- The order of the bytes that buffered_socket.c writes, and the room of its buffer.
use cjet.Base.{
  ℕ, ◌≤◌, true, false, List, [], ◌∷◌, ◌++◌, length, take, drop, ◌==◌, min, ◌≡◌, refl, sym, ap, ◌∙◌,
  arith, append_assoc, take-append-drop, length-drop, length-take, Bool-cases, inl, inr,
}
use cjet.BufferedSocket.{
  Write, BufferedSocket, send_rest, send_buffer, keep_rest, joined, writev_blocked, writev_sent,
  first_write, buffered_socket_writev,
}
use cjet.BufferedSocket.Copying.{drop-all, keep_rest-joined, keep_rest-room}

-- All bytes that a socket was given: those that the system took, then those that wait
unfoldable pub stream : BufferedSocket → List ℕ
stream bs = bs.wire ++ bs.write_buffer

send_rest-stream :
    (writes : List Write) (start bs wire : List ℕ)
    → (send_rest writes start bs wire).0 ≡ true
    → stream (send_rest writes start bs wire).1 ≡ wire ++ bs
unfolding send_rest stream
send_rest-stream writes start [] wire sent = refl
send_rest-stream [] start (b ∷ bs) wire sent = refl
send_rest-stream (Write.written n ∷ writes) start (b ∷ bs) wire sent =
    send_rest-stream writes start (drop n (b ∷ bs)) (wire ++ take n (b ∷ bs)) sent
    ∙ append_assoc wire (take n (b ∷ bs)) (drop n (b ∷ bs))
    ∙ ap (λ l. wire ++ l) (take-append-drop n (b ∷ bs))
send_rest-stream (Write.would_block ∷ writes) start (b ∷ bs) wire sent = refl
send_rest-stream (Write.failed ∷ writes) start (b ∷ bs) wire sent = absurd (cc)

send_rest-room :
    (cap : ℕ) (writes : List Write) (start bs wire : List ℕ)
    → length bs ≤ cap
    → length (send_rest writes start bs wire).1.write_buffer ≤ cap
unfolding send_rest
send_rest-room cap writes start [] wire room = omega arith
send_rest-room cap [] start (b ∷ bs) wire room = room
send_rest-room cap (Write.written n ∷ writes) start (b ∷ bs) wire room =
    send_rest-room cap writes start (drop n (b ∷ bs)) (wire ++ take n (b ∷ bs))
      (omega (arith, length-drop n (b ∷ bs)))
send_rest-room cap (Write.would_block ∷ writes) start (b ∷ bs) wire room = room
send_rest-room cap (Write.failed ∷ writes) start (b ∷ bs) wire room =
    omega (arith, length-take (length (b ∷ bs)) start)

-- When send_buffer returns 0, the bytes that the system has, followed by those that still wait,
-- are unchanged.
send_buffer-stream :
    (bs : BufferedSocket) → (send_buffer bs).0 ≡ true → stream (send_buffer bs).1 ≡ stream bs
unfolding send_buffer stream
send_buffer-stream bs sent = send_rest-stream bs.writes bs.write_buffer bs.write_buffer bs.wire sent

module _ (cap : ℕ) where
  blocked-stream :
      (io_vec : List (List ℕ)) (writes : List Write) (bs : BufferedSocket)
      → (writev_blocked cap io_vec writes bs).0 ≡ true
      → stream (writev_blocked cap io_vec writes bs).1 ≡ stream bs ++ joined io_vec
  unfolding writev_blocked stream
  blocked-stream io_vec writes bs kept =
      ap (λ l. bs.wire ++ l) (keep_rest-joined cap io_vec 0 bs.write_buffer kept)
      ∙ sym (append_assoc bs.wire bs.write_buffer (joined io_vec))

  -- The three ways of a first call that takes bytes: it takes all, or the rest is kept and tried, or
  -- the rest finds no room.
  module _ (io_vec : List (List ℕ)) (sent : ℕ) (writes : List Write) (bs : BufferedSocket) where
    abbrev all_bytes : List ℕ
    all_bytes = bs.write_buffer ++ joined io_vec

    abbrev kept_socket : BufferedSocket
    kept_socket = record {
      write_buffer = (keep_rest cap io_vec sent bs.write_buffer).1;
      wire = bs.wire ++ take sent all_bytes;
      writes = writes;
    }

    kept_socket-stream :
        (keep_rest cap io_vec sent bs.write_buffer).0 ≡ true
        → stream kept_socket ≡ stream bs ++ joined io_vec
    unfolding stream
    kept_socket-stream kept =
        ap (λ l. (bs.wire ++ take sent all_bytes) ++ l)
          (keep_rest-joined cap io_vec sent bs.write_buffer kept)
        ∙ append_assoc bs.wire (take sent all_bytes) (drop sent all_bytes)
        ∙ ap (λ l. bs.wire ++ l) (take-append-drop sent all_bytes)
        ∙ sym (append_assoc bs.wire bs.write_buffer (joined io_vec))

    all_sent :
        (sent == length all_bytes) ≡ true
        → writev_sent cap io_vec sent writes bs ≡ (
          true,
          record { write_buffer = []; wire = bs.wire ++ take sent all_bytes; writes = writes },
        )
    unfolding writev_sent
    all_sent e = simp (e)

    rest_sent :
        (sent == length all_bytes) ≡ false
        → (keep_rest cap io_vec sent bs.write_buffer).0 ≡ true
        → writev_sent cap io_vec sent writes bs ≡ send_buffer kept_socket
    unfolding writev_sent
    rest_sent e k = simp (e, k)

    no_room :
        (sent == length all_bytes) ≡ false
        → (keep_rest cap io_vec sent bs.write_buffer).0 ≡ false
        → writev_sent cap io_vec sent writes bs ≡ (false, kept_socket)
    unfolding writev_sent
    no_room e k = simp (e, k)

    all_sent-stream :
        sent ≡ length all_bytes
        → (bs.wire ++ take sent all_bytes) ++ [] ≡ stream bs ++ joined io_vec
    unfolding stream
    all_sent-stream e =
        ap (λ l. (bs.wire ++ take sent all_bytes) ++ l)
          (sym (ap (λ n. drop n all_bytes) e ∙ drop-all all_bytes))
        ∙ append_assoc bs.wire (take sent all_bytes) (drop sent all_bytes)
        ∙ ap (λ l. bs.wire ++ l) (take-append-drop sent all_bytes)
        ∙ sym (append_assoc bs.wire bs.write_buffer (joined io_vec))

    sent-stream :
        (writev_sent cap io_vec sent writes bs).0 ≡ true
        → stream (writev_sent cap io_vec sent writes bs).1 ≡ stream bs ++ joined io_vec
    unfolding stream
    sent-stream done = elim (Bool-cases (sent == length all_bytes)) [
      | inl e ↦ ap (λ r. stream r.1) (all_sent e) ∙ all_sent-stream (ground arith)
      | inr e ↦ elim (Bool-cases (keep_rest cap io_vec sent bs.write_buffer).0) [
        | inr k ↦
            let s = no_room e k in
            let q : false ≡ true = sym (ap (λ r. r.0) s) ∙ done in absurd (cc)
        | inl k ↦
            let s = rest_sent e k in
            ap (λ r. stream r.1) s
            ∙ send_buffer-stream kept_socket (sym (ap (λ r. r.0) s) ∙ done)
            ∙ kept_socket-stream k
      ]
    ]

    sent-room :
        length bs.write_buffer ≤ cap
        → length (writev_sent cap io_vec sent writes bs).1.write_buffer ≤ cap
    unfolding send_buffer
    sent-room room = elim (Bool-cases (sent == length all_bytes)) [
      | inl e ↦ rw (all_sent e) (omega arith)
      | inr e ↦ elim (Bool-cases (keep_rest cap io_vec sent bs.write_buffer).0) [
        | inr k ↦ rw (no_room e k) (keep_rest-room cap io_vec sent bs.write_buffer room)
        | inl k ↦ rw (rest_sent e k) (
            send_rest-room cap writes kept_socket.write_buffer kept_socket.write_buffer
              kept_socket.wire (keep_rest-room cap io_vec sent bs.write_buffer room))
      ]
    ]

  -- By what the first call does
  module _ (io_vec : List (List ℕ)) (bs : BufferedSocket) where
    first_write-stream :
        (ws : List Write)
        → (first_write cap io_vec bs ws).0 ≡ true
        → stream (first_write cap io_vec bs ws).1 ≡ stream bs ++ joined io_vec
    unfolding first_write
    first_write-stream [] done = blocked-stream io_vec [] bs done
    first_write-stream (Write.would_block ∷ ws) done = blocked-stream io_vec ws bs done
    first_write-stream (Write.failed ∷ ws) done = absurd (cc)
    first_write-stream (Write.written n ∷ ws) done =
        sent-stream io_vec (min n (length (bs.write_buffer ++ joined io_vec))) ws bs done

    first_write-room :
        (ws : List Write)
        → length bs.write_buffer ≤ cap
        → length (first_write cap io_vec bs ws).1.write_buffer ≤ cap
    unfolding first_write writev_blocked
    first_write-room [] room = keep_rest-room cap io_vec 0 bs.write_buffer room
    first_write-room (Write.would_block ∷ ws) room =
        keep_rest-room cap io_vec 0 bs.write_buffer room
    first_write-room (Write.failed ∷ ws) room = room
    first_write-room (Write.written n ∷ ws) room =
        sent-room io_vec (min n (length (bs.write_buffer ++ joined io_vec))) ws bs room

    -- When buffered_socket_writev returns 0, whatever its calls took, the bytes that the system
    -- has, followed by those that wait, are the ones before, followed by all bytes of the vectors:
    -- nothing is lost, doubled or overtaken.
    pub buffered_socket_writev-stream :
        (buffered_socket_writev cap io_vec bs).0 ≡ true
        → stream (buffered_socket_writev cap io_vec bs).1 ≡ stream bs ++ joined io_vec
    unfolding buffered_socket_writev
    buffered_socket_writev-stream done = first_write-stream bs.writes done

    -- On every branch of buffered_socket_writev, failures included, the bytes that wait fit into
    -- the write buffer, if they did before.
    pub buffered_socket_writev-room :
        length bs.write_buffer ≤ cap
        → length (buffered_socket_writev cap io_vec bs).1.write_buffer ≤ cap
    unfolding buffered_socket_writev
    buffered_socket_writev-room room = first_write-room bs.writes room
