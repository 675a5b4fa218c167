-- ===== src/SocketReader/Taking.antt =====
-- One request for bytes: `get_read_ptr` of buffered_socket.c.
use cjet.Base.{
  ℕ, zero, suc, ◌+◌, ◌-◌, ◌≤◌, ◌<◌, false, Option, none, some, List, [], ◌∷◌, ◌++◌, length, take,
  drop, ltb, leb, All, map, ◌≡◌, refl, sym, ap, ◌∙◌, arith, append_assoc, append-nil,
  take-append-drop, length-append, length-drop, length-take, Bool-cases, inl, inr, ◌⊎◌, take-within,
  drop-within,
}
use cjet.SocketReader.{
  Read, arrived, Reader, would_block, too_much_data, free_space, reorganize_read_buffer,
  read_socket, fill_buffer, bytes, stopped, get_read_ptr, Taken,
}

List-cases {ℓ} : {A : Type ℓ} (xs : List A) → (xs ≡ []) ⊎ ((c : A) × (cs : List A) × (xs ≡ c ∷ cs))
List-cases [] = inl refl
List-cases (c ∷ cs) = inr (c, cs, refl)

-- The bytes of all arrivals
abbrev pub joined : List (List ℕ) → List ℕ
joined [] = []
joined (c ∷ cs) = c ++ joined cs

abbrev pub IsFilled : List ℕ → Type 0
IsFilled c = 0 < length c

-- The bytes that a reader has and gets: only arrivals are ahead, and the buffer holds what it has.
pub record Carries (max : ℕ) (r : Reader) (all : List ℕ) : Type 0 where
  pub chunks : List (List ℕ)
  pub ahead : r.reads ≡ map arrived chunks
  pub filled : All IsFilled chunks
  pub inside : r.start + length r.unread ≤ max
  pub stream : r.unread ++ joined chunks ≡ all

module _ (max : ℕ) where
  -- The buffer with room for more, if the request fits at all
  fill_buffer-room :
      (count : ℕ) (r : Reader)
      → r.start + length r.unread ≤ max
      → length r.unread + count ≤ max
      → (r' : Reader) × (r'.unread ≡ r.unread)
        × (r'.reads ≡ r.reads)
        × (r'.start + length r'.unread ≤ max)
        × (count ≤ free_space max r')
        × (fill_buffer max count r ≡ read_socket (free_space max r') r' r'.reads)
  unfolding fill_buffer free_space reorganize_read_buffer
  fill_buffer-room count r inside fits = elim (Bool-cases (ltb (free_space max r) count)) [
    | inl e ↦ (reorganize_read_buffer r, refl, refl, omega arith, omega arith, ground arith)
    | inr e ↦ (r, refl, refl, inside, ground arith, ground arith)
  ]

  fill_buffer_refused :
      (count : ℕ) (r : Reader)
      → r.start + length r.unread ≤ max
      → max < length r.unread + count
      → (r' : Reader) × (fill_buffer max count r ≡ (some too_much_data, r'))
  unfolding fill_buffer free_space reorganize_read_buffer
  fill_buffer_refused count r inside large = (reorganize_read_buffer r, ground arith)

  -- The reader after a read of a chunk
  abbrev after_read : ℕ → Reader → List ℕ → List (List ℕ) → Reader
  after_read space r c cs = record r {
    unread = r.unread ++ take space c;
    reads = elim (drop space c) [
      | [] ↦ map arrived cs
      | d ∷ ds ↦ arrived (d ∷ ds) ∷ map arrived cs
    ];
  }

  rest_chunks :
      (rest : List ℕ) (cs : List (List ℕ))
      → All IsFilled cs
      → (chunks : List (List ℕ)) × (elim rest as (λ _. List Read) [
        | [] ↦ map arrived cs
        | d ∷ ds ↦ arrived (d ∷ ds) ∷ map arrived cs
      ]
          ≡ map arrived chunks)
        × All IsFilled chunks
        × (joined chunks ≡ rest ++ joined cs)
  rest_chunks [] cs filled = (cs, refl, filled, refl)
  rest_chunks (d ∷ ds) cs filled = ((d ∷ ds) ∷ cs, refl, (omega arith, filled), refl)

  after_read-Carries :
      (space : ℕ) (r : Reader) (all c : List ℕ) (cs : List (List ℕ))
      → space ≡ free_space max r
      → r.start + length r.unread ≤ max
      → All IsFilled cs
      → r.unread ++ (c ++ joined cs) ≡ all
      → Carries max (after_read space r c cs) all
  unfolding free_space
  after_read-Carries space r all c cs e inside filled stream =
      let (chunks, ahead, filled', rest) = rest_chunks (drop space c) cs filled in
      record {
        chunks = chunks;
        ahead = ahead;
        filled = filled';
        inside = omega (arith, length-append r.unread (take space c), length-take space c);
        stream =
            append_assoc r.unread (take space c) (joined chunks)
            ∙ ap (λ l. r.unread ++ l)
                (ap (λ l. take space c ++ l) rest
                  ∙ sym (append_assoc (take space c) (drop space c) (joined cs))
                  ∙ ap (λ l. l ++ joined cs) (take-append-drop space c))
            ∙ stream;
      }

  -- One read, by what is ahead
  read_nothing :
      (space : ℕ) (r : Reader) (chunks : List (List ℕ))
      → chunks ≡ []
      → r.reads ≡ map arrived chunks
      → read_socket space r r.reads ≡ (some would_block, r)
  unfolding read_socket
  read_nothing space r chunks none_left ahead =
      let e : r.reads ≡ [] = ahead ∙ ap (map arrived) none_left in ap (read_socket space r) e

  read_chunk :
      (space : ℕ) (r : Reader) (c : List ℕ) (cs : List (List ℕ))
      → IsFilled c
      → read_socket space r (map arrived (c ∷ cs)) ≡ (none, after_read space r c cs)
  unfolding read_socket
  read_chunk space r [] cs filled = absurd (omega arith)
  read_chunk space r (b ∷ bs) cs filled = refl

  -- What a request for `count` bytes gives: the first of all bytes, if there are so many,
  abbrev Given : ℕ → List ℕ → Option (Taken × Reader) → Type 0
  Given count all o =
      ((count ≤ length all)
        × ((r' : Reader) × (o ≡ some (bytes (take count all), r'))
            × Carries max r' (drop count all)))
      ⊎ ((length all < count)
          × ((r' : Reader) × (o ≡ some (stopped would_block, r')) × Carries max r' all))

  pub get_read_ptr-Given :
      (fuel count : ℕ) (r : Reader) (all : List ℕ)
      → count ≤ max
      → count - length r.unread < fuel
      → Carries max r all
      → Given count all (get_read_ptr max fuel count r)
  unfolding get_read_ptr
  get_read_ptr-Given zero count r all fits enough carries = absurd (omega arith)
  get_read_ptr-Given (suc fuel) count r all fits enough carries =
      elim (Bool-cases (leb count (length r.unread))) [
        | inl e ↦
            let xs = r.unread in
            let ys = joined carries.chunks in
            let le : count ≤ length xs = ground arith in
            let first : take count xs ≡ take count all =
              sym (take-within count xs ys le) ∙ ap (take count) carries.stream in
            let r' = record r { start = r.start + count; unread = drop count xs } in
            inl (
              omega (arith, ap length carries.stream, length-append xs ys),
              (
                r',
                rw (e, get_read_ptr) (ap (λ l. some (bytes l, r')) first),
                record {
                  chunks = carries.chunks;
                  ahead = carries.ahead;
                  filled = carries.filled;
                  inside = omega (arith, length-drop count xs, carries.inside);
                  stream = sym (drop-within count xs ys le) ∙ ap (drop count) carries.stream;
                },
              ),
            )
        | inr e ↦
            let (r', same, ahead, inside, space, run) =
              fill_buffer-room (count - length r.unread) r carries.inside (ground arith) in
            elim (List-cases carries.chunks) [
              | inl none_left ↦
                  let stop =
                    read_nothing (free_space max r') r' carries.chunks none_left
                      (ahead ∙ carries.ahead) in
                  let alone : r.unread ≡ all =
                    sym (append-nil r.unread)
                    ∙ ap (λ l. r.unread ++ l) (sym (ap joined none_left))
                    ∙ carries.stream in
                  inr (
                    ground (arith, ap length alone),
                    (
                      r',
                      ground (arith, e, run ∙ stop),
                      record {
                        chunks = carries.chunks;
                        ahead = ahead ∙ carries.ahead;
                        filled = carries.filled;
                        inside = inside;
                        stream = ap (λ l. l ++ joined carries.chunks) same ∙ carries.stream;
                      },
                    ),
                  )
              | inr (c, cs, some_left) ↦
                  let space_size = free_space max r' in
                  let (filled_c, filled_cs) = rw some_left at (carries.filled) in
                  let ahead' : r'.reads ≡ map arrived (c ∷ cs) =
                    ahead ∙ carries.ahead ∙ ap (map arrived) some_left in
                  let r1 = after_read space_size r' c cs in
                  let read : read_socket space_size r' r'.reads ≡ (none, r1) =
                    ap (read_socket space_size r') ahead'
                    ∙ read_chunk space_size r' c cs filled_c in
                  let carries1 = after_read-Carries space_size r' all c cs refl inside filled_cs (
                    ap (λ l. l ++ (c ++ joined cs)) same
                    ∙ ap (λ l. r.unread ++ l) (sym (ap joined some_left))
                    ∙ carries.stream) in
                  let step : get_read_ptr max (suc fuel) count r ≡ get_read_ptr max fuel count r1 =
                    ground (arith, e, run ∙ read) in
                  let more : count - length r1.unread < fuel = ground (
                    arith,
                    length-append r'.unread (take space_size c),
                    length-take space_size c,
                    ap length same,
                  ) in
                  rw step (get_read_ptr-Given fuel count r1 all fits more carries1)
            ]
      ]

  -- A request for more than the buffer holds is refused, whatever is there.
  pub get_read_ptr_refused :
      (fuel count : ℕ) (r : Reader) (all : List ℕ)
      → max < count
      → Carries max r all
      → (r' : Reader) × (get_read_ptr max (suc fuel) count r ≡ some (stopped too_much_data, r'))
  unfolding get_read_ptr
  get_read_ptr_refused fuel count r all large carries =
      let e : leb count (length r.unread) ≡ false = ground (arith, carries.inside) in
      let (r', refused) =
        fill_buffer_refused (count - length r.unread) r carries.inside
          (omega (arith, carries.inside)) in
      (r', ground (arith, e, refused))
