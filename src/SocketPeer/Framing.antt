-- ===== src/SocketPeer/Framing.antt =====
-- Whole messages on a connection.
use cjet.Base.{
  ℕ, zero, suc, ◌*◌, ◌^◌, ◌≤◌, ◌<◌, Bool, true, false, Option, some, List, [], ◌∷◌, ◌++◌, length,
  take, drop, ltb, leb, All, ◌≡◌, refl, sym, ap, ◌∙◌, arith, Bool-cases, inl, inr, if◌then◌else◌,
  take-append, drop-append, append_assoc, length-append,
}
use cjet.Base.Endian.{big_endian, big_endian_bytes, big_endian_bytes_back, length-big_endian_bytes}
use cjet.Json.{Json, Platform}
use cjet.State.{World}
use cjet.SocketReader.{Reader, Ended, closed, ended, would_block, go_reading}
use cjet.SocketReader.Taking.{Carries}
use cjet.SocketReader.Stream.{consume, IsKept, go_reading-consume}
use cjet.SocketPeer.{
  Pending, length_next, message_next, Connection, wanted, send_message_vectors, parse_text,
  free_jet_peer, on_read, next_behind,
}
use cjet.Rpc.{parse_message}

-- The bytes on the wire of messages that are sent one after another
abbrev pub frame : List ℕ → List ℕ
frame m = big_endian_bytes 4 (length m) ++ m

abbrev pub frames : List (List ℕ) → List ℕ
frames [] = []
frames (m ∷ ms) = frame m ++ frames ms

-- A text that a receiver with a buffer of `max` bytes takes
abbrev pub Fits : ℕ → List ℕ → Type 0
Fits max m = (0 < length m) × (length m < 2 ^ 32) × (length m ≤ max)

-- `send_message` writes the frame.
send_message_vectors-frame :
    (m : List ℕ)
    → length m < 2 ^ 32
    → send_message_vectors m ≡ some (big_endian_bytes 4 (length m) ∷ m ∷ [])
unfolding send_message_vectors
send_message_vectors-frame m small = ground arith

module _ (g : Platform) (info : Json) (parse_with_opts : List ℕ → Option (Json × ℕ))
    (check_length : Bool) (p : ℕ) where
  abbrev text : List ℕ → World → Bool × World
  text m w = parse_text g info parse_with_opts check_length p m [] w

  -- The parser comes to its result within the text, so that what lies behind does not matter.
  abbrev pub IsWhole : List ℕ → Type 0
  IsWhole m = (behind : List ℕ) → parse_with_opts (m ++ behind) ≡ parse_with_opts m

  parse_text-whole :
      (m behind : List ℕ) (w : World)
      → IsWhole m
      → parse_text g info parse_with_opts check_length p m behind w ≡ text m w
  unfolding parse_text
  parse_text-whole m behind w whole =
      ap (λ r. parse_message g info r check_length (length m) p w) (whole behind ∙ sym (whole []))

  abbrev freed : World → World
  freed = free_jet_peer g info parse_with_opts check_length p

  -- Texts handled one after another, until one fails: then the peer is freed, and the rest ignored.
  unfoldable pub handle_all : List (List ℕ) → World → Ended × World
  handle_all [] w = (ended would_block, w)
  handle_all (m ∷ ms) w =
      let (ok, w1) = text m w in elim ok [ true ↦ handle_all ms w1 | false ↦ (closed, freed w1) ]

  abbrev pub callback : Connection → List ℕ → Bool × Connection
  callback = on_read g info parse_with_opts check_length p

  abbrev pub waiting : World → List (List ℕ) → Connection
  waiting w memory = record { pending = length_next; world = w; memory = memory }

  -- The text is the next one.
  abbrev pub reading : ℕ → World → List (List ℕ) → Connection
  reading n w memory = record { pending = message_next n; world = w; memory = memory }

  -- A request is never for no bytes.
  abbrev IsWaiting : Connection → Type 0
  IsWaiting c = 0 < wanted c

  on_read-IsWaiting_at :
      (o : Pending) (w : World) (mem : List (List ℕ)) (bs : List ℕ)
      → IsWaiting (record { pending = o; world = w; memory = mem })
      → IsWaiting (callback (record { pending = o; world = w; memory = mem }) bs).1
  unfolding on_read wanted
  on_read-IsWaiting_at o w mem [] here = here
  on_read-IsWaiting_at length_next w mem (b ∷ bs) here = ground arith
  on_read-IsWaiting_at (message_next n) w mem (b ∷ bs) here = ground arith

  on_read-IsWaiting : (c : Connection) (bs : List ℕ) → IsWaiting c → IsWaiting (callback c bs).1
  on_read-IsWaiting c bs here = on_read-IsWaiting_at c.pending c.world c.memory bs here

  -- The length of a message
  on_length :
      (w : World) (mem : List (List ℕ)) (xs : List ℕ) (n : ℕ)
      → 0 < length xs
      → big_endian 0 xs ≡ n
      → 0 < n
      → callback (waiting w mem) xs ≡ (true, reading n w mem)
  unfolding on_read
  on_length w mem [] n filled e pos = absurd (omega arith)
  on_length w mem (x ∷ xs) n filled e pos = ground arith

  -- The text of a message
  on_text :
      (w : World) (mem : List (List ℕ)) (n : ℕ) (m : List ℕ)
      → 0 < length m
      → IsWhole m
      → callback (reading n w mem) m ≡ (
          if (text m w).0
          then (true, waiting (text m w).1 (drop 1 mem))
          else (false, reading n (freed (text m w).1) mem))
  unfolding on_read
  on_text w mem n [] filled whole = absurd (omega arith)
  on_text w mem n (x ∷ xs) filled whole =
      ap (λ r. if r.0 then (true, waiting r.1 (drop 1 mem)) else (false, reading n (freed r.1) mem))
        (parse_text-whole (x ∷ xs) (next_behind mem) w whole)

  module _ (max : ℕ) (room : 4 ≤ max) where
    -- A request that is met
    consume-next :
        (fuel : ℕ) (c : Connection) (xs rest : List ℕ)
        → wanted c ≡ length xs
        → length xs ≤ max
        → consume max wanted callback (suc fuel) c (xs ++ rest) ≡ (
            if (callback c xs).0
            then consume max wanted callback fuel (callback c xs).1 rest
            else some (closed, (callback c xs).1, rest))
    unfolding consume
    consume-next fuel c xs rest e fits =
        let small : ltb max (wanted c) ≡ false = ground arith in
        let there : leb (wanted c) (length (xs ++ rest)) ≡ true =
          ground (arith, length-append xs rest) in
        let first : take (wanted c) (xs ++ rest) ≡ xs =
          ap (λ n. take n (xs ++ rest)) e ∙ take-append xs rest in
        let behind : drop (wanted c) (xs ++ rest) ≡ rest =
          ap (λ n. drop n (xs ++ rest)) e ∙ drop-append xs rest in
        ground (arith, small, there, first, behind)

    consume-frame :
        (fuel : ℕ) (w : World) (mem : List (List ℕ)) (m rest : List ℕ)
        → Fits max m
        → IsWhole m
        → consume max wanted callback (suc (suc fuel)) (waiting w mem) (frame m ++ rest) ≡ (
            if (text m w).0
            then consume max wanted callback fuel (waiting (text m w).1 (drop 1 mem)) rest
            else some (closed, reading (length m) (freed (text m w).1) mem, rest))
    unfolding wanted
    consume-frame fuel w mem m rest (filled, small, fits) whole =
        let head = big_endian_bytes 4 (length m) in
        let four = length-big_endian_bytes 4 (length m) in
        let one =
          consume-next (suc fuel) (waiting w mem) head (m ++ rest) (sym four)
            (omega (arith, four)) in
        let length_read =
          on_length w mem head (length m) (omega (arith, four))
            (big_endian_bytes_back 4 (length m) small) filled in
        let c = reading (length m) w mem in
        let two = consume-next fuel c m rest refl fits in
        ap (consume max wanted callback (suc (suc fuel)) (waiting w mem)) (append_assoc head m rest)
        ∙ one
        ∙ ap
            (λ r.
              if r.0
              then consume max wanted callback (suc fuel) r.1 (m ++ rest)
              else some (closed, r.1, m ++ rest))
            length_read
        ∙ two
        ∙ ap
            (λ r.
              if r.0 then consume max wanted callback fuel r.1 rest else some (closed, r.1, rest))
            (on_text w mem (length m) m filled whole)
        ∙ (ground arith)

    -- The frames of messages, by the callbacks
    consume-frames :
        (ms : List (List ℕ)) (fuel : ℕ) (w : World) (mem : List (List ℕ))
        → All (Fits max) ms
        → All IsWhole ms
        → 2 * length ms < fuel
        → (c : Connection) × (rest : List ℕ) × (consume max wanted callback fuel
              (waiting w mem)
              (frames ms)
            ≡ some ((handle_all ms w).0, c, rest))
          × (c.world ≡ (handle_all ms w).1)
    unfolding handle_all consume wanted
    consume-frames [] zero w mem fits whole enough = absurd (omega arith)
    consume-frames [] (suc fuel) w mem fits whole enough = (waiting w mem, [], ground arith, refl)
    consume-frames (m ∷ ms) zero w mem fits whole enough = absurd (omega arith)
    consume-frames (m ∷ ms) (suc zero) w mem fits whole enough = absurd (omega arith)
    consume-frames (m ∷ ms) (suc (suc fuel)) w mem (fits, others) (whole, wholes) enough =
        let step = consume-frame fuel w mem m (frames ms) fits whole in
        elim (Bool-cases (text m w).0) [
          | inl good ↦
              let (c, rest, done, same) =
                consume-frames ms fuel (text m w).1 (drop 1 mem) others wholes (omega arith) in
              (c, rest, step ∙ (ground (arith, good, done)), ground (arith, good, same))
          | inr bad ↦ (
            reading (length m) (freed (text m w).1) mem,
            frames ms,
            step ∙ (ground (arith, bad)),
            ground (arith, bad),
          )
        ]

    length-frames : (ms : List (List ℕ)) → All (Fits max) ms → 2 * length ms ≤ length (frames ms)
    length-frames [] fits = omega arith
    length-frames (m ∷ ms) (fits, others) = omega (
      arith,
      length-append (frame m) (frames ms),
      length-append (big_endian_bytes 4 (length m)) m,
      length-big_endian_bytes 4 (length m),
      length-frames ms others,
    )

    -- When the frames of texts, none of them empty, longer than the read buffer or of 2^32 bytes,
    -- and each of which cJSON decides without the bytes behind it, arrive on a connection, in any
    -- pieces and with any bytes behind them in the read buffer, read_function ends after the texts
    -- were parsed and handled one after another in their order, up to the first that fails, after
    -- which the peer is freed; the whole state is the one that handling them so leaves.
    pub go_reading-frames :
        (ms : List (List ℕ)) (w : World) (mem : List (List ℕ)) (r : Reader)
        → All (Fits max) ms
        → All IsWhole ms
        → Carries max r (frames ms)
        → (c : Connection) × (r' : Reader) × (go_reading max wanted callback
              (suc (length (frames ms)))
              (waiting w mem)
              r
            ≡ some ((handle_all ms w).0, c, r'))
          × (c.world ≡ (handle_all ms w).1)
    unfolding wanted
    go_reading-frames ms w mem r fits whole carries =
        let fuel = suc (length (frames ms)) in
        let keeps : IsKept max wanted callback IsWaiting = record {
          some_wanted = λ t h. h;
          kept = on_read-IsWaiting;
        } in
        let (e, s, r', rest, o, q, waits) =
          go_reading-consume max wanted callback IsWaiting fuel (waiting w mem) r (frames ms) keeps
            (omega arith) carries (omega arith) in
        let (c, rest', done, same) =
          consume-frames ms fuel w mem fits whole (omega (arith, length-frames ms fits)) in
        let ends : e ≡ (handle_all ms w).0 = ground (arith, q, done) in
        let states : s ≡ c = ground (arith, q, done) in
        (
          c,
          r',
          o ∙ ap (λ x. some (x, s, r')) ends ∙ ap (λ x. some ((handle_all ms w).0, x, r')) states,
          same,
        )
