-- ===== src/SocketReader/Stream.antt =====
-- The loop of buffered_socket.c over a stream of bytes: what the owner of a socket sees depends on the
-- bytes alone, and not on how they are cut into arrivals or where they lie in the buffer.
use cjet.Base.{
  ℕ, zero, suc, ◌<◌, Bool, true, false, Option, none, some, List, length, take, drop, ltb, leb, ◌≡◌,
  arith, length-drop, length-take, ◌==◌, Bool-cases, inl, inr,
}
use cjet.SocketReader.{Reader, would_block, too_much_data, Ended, closed, ended, go_reading}
use cjet.SocketReader.Taking.{Carries, get_read_ptr-Given, get_read_ptr_refused}

module _ (max : ℕ) {S : Type 0} (wants : S → ℕ) (callback : S → List ℕ → Bool × S) where
  -- The callbacks on a list of bytes that is there as a whole: each takes what its owner wants, until
  -- one closes, too little is left, or more is wanted than the buffer can hold. The bytes behind are left.
  unfoldable pub consume : ℕ → S → List ℕ → Option (Ended × S × List ℕ)
  consume zero s all = none
  consume (suc fuel) s all = elim (ltb max (wants s)) [
    | true ↦ some (ended too_much_data, s, all)
    | false ↦ elim (leb (wants s) (length all)) [
      | false ↦ some (ended would_block, s, all)
      | true ↦
          let (ok, s1) = callback s (take (wants s) all) in
          let rest = drop (wants s) all in
          elim ok [ true ↦ consume fuel s1 rest | false ↦ some (closed, s1, rest) ]
    ]
  ]

  -- The loop ends as `consume` does, and when it waits, the reader has the bytes that are left.
  abbrev pub Agrees : Option (Ended × S × Reader) → Option (Ended × S × List ℕ) → Type 0
  Agrees o p =
      (e : Ended) × (s : S) × (r : Reader) × (rest : List ℕ) × (o ≡ some (e, s, r))
      × (p ≡ some (e, s, rest))
      × (e ≡ ended would_block → Carries max r rest)

  -- What the owner keeps of its state is enough to want some bytes.
  pub record IsKept (P : S → Type 0) : Type 0 where
    pub some_wanted : (t : S) → P t → 0 < wants t
    pub kept : (t : S) (bs : List ℕ) → P t → P (callback t bs).1

  -- While only arrivals of bytes are ahead, and for an owner that always wants some bytes:
  -- go_reading ends, and it ends as the callbacks on the whole list of bytes do, however the bytes
  -- are cut into arrivals and wherever they lie in the buffer; when it waits, the reader has
  -- exactly the bytes that were not handed out.
  pub go_reading-consume :
      (P : S → Type 0) (fuel : ℕ) (s : S) (r : Reader) (all : List ℕ)
      → IsKept P
      → P s
      → Carries max r all
      → length all < fuel
      → Agrees (go_reading max wants callback fuel s r) (consume fuel s all)
  unfolding go_reading consume
  go_reading-consume P zero s r all keeps here carries enough = absurd (omega arith)
  go_reading-consume P (suc fuel) s r all keeps here carries enough =
      let n = wants s in
      elim (Bool-cases (ltb max n)) [
        | inl large ↦
            let (r', refused) = get_read_ptr_refused max n n r all (ground arith) carries in
            (
              ended too_much_data,
              s,
              r',
              all,
              ground (arith, refused),
              ground (arith, large),
              λ e. absurd (cc),
            )
        | inr fits ↦
            elim (get_read_ptr-Given max (suc n) n r all (ground arith) (omega arith) carries) [
              | inr (few, (r', run, carries')) ↦
                  let little : leb n (length all) ≡ false = ground arith in
                  (
                    ended would_block,
                    s,
                    r',
                    all,
                    ground (arith, run),
                    ground (arith, fits, little),
                    λ e. carries',
                  )
              | inl (there, (r', run, carries')) ↦
                  let plenty : leb n (length all) ≡ true = ground arith in
                  let rest = drop n all in
                  let next = callback s (take n all) in
                  let some_bytes : (length (take n all) == 0) ≡ false =
                    ground (arith, length-take n all, there, plenty, keeps.some_wanted s here) in
                  elim (Bool-cases next.0) [
                    | inr shut ↦ (
                      closed,
                      next.1,
                      r',
                      rest,
                      ground (arith, run, shut, some_bytes),
                      ground (arith, fits, plenty, shut),
                      λ e. absurd (cc),
                    )
                    | inl goes_on ↦
                        let (e, s', r2, rest', o, p, waits) =
                          go_reading-consume P fuel next.1 r' rest keeps
                            (keeps.kept s (take n all) here) carries'
                            (omega (arith, length-drop n all, keeps.some_wanted s here)) in
                        (
                          e,
                          s',
                          r2,
                          rest',
                          ground (arith, run, goes_on, some_bytes, o),
                          ground (arith, fits, plenty, goes_on, p),
                          waits,
                        )
                  ]
            ]
      ]
