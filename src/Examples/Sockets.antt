-- ===== src/Examples/Sockets.antt =====
-- The properties of reading from sockets at concrete inputs.
use cjet.Base.{
  ℕ, suc, ◌+◌, ◌==◌, if◌then◌else◌, Bool, true, Option, none, some, List, [], ◌∷◌, ◌++◌, length,
  ltb, ◌≡◌, refl, arith,
}
use cjet.Base.Endian.{big_endian_bytes}
use cjet.Examples.{host, busy, change_a}
use cjet.Json.{Json}
use cjet.SocketReader.{Reader, arrived, go_reading}
use cjet.SocketReader.Taking.{Carries}
use cjet.SocketReader.Stream.{consume, Agrees, IsKept, go_reading-consume}
use cjet.SocketPeer.{Connection, wanted}
use cjet.SocketPeer.Framing.{frames, callback, waiting, handle_all, go_reading-frames}

-- An owner that reads pairs and closes when it has ten bytes
abbrev take_pair : List ℕ → List ℕ → Bool × List ℕ
take_pair log bs = (ltb (length log) 10, log ++ bs)

pairs-IsKept : IsKept 8 (λ log. 2) take_pair (λ log. Unit)
pairs-IsKept = record { some_wanted = λ t h. omega arith; kept = λ t bs h. tt }

-- Seven bytes in three pieces, the first of them read before
abbrev in_pieces : Reader
in_pieces = record {
  start = 3;
  unread = 1 ∷ [];
  reads = arrived (2 ∷ 3 ∷ 4 ∷ []) ∷ arrived (5 ∷ 6 ∷ 7 ∷ []) ∷ [];
}

abbrev whole : List ℕ
whole = 1 ∷ 2 ∷ 3 ∷ 4 ∷ 5 ∷ 6 ∷ 7 ∷ []

pieces-Carries : Carries 8 in_pieces whole
pieces-Carries = record {
  chunks = (2 ∷ 3 ∷ 4 ∷ []) ∷ (5 ∷ 6 ∷ 7 ∷ []) ∷ [];
  ahead = refl;
  filled = (omega arith, (omega arith, tt));
  inside = omega arith;
  stream = refl;
}

go_reading-consume_example :
    Agrees 8
      (λ log. 2)
      take_pair
      (go_reading 8 (λ log. 2) take_pair 8 [] in_pieces)
      (consume 8 (λ log. 2) take_pair 8 [] whole)
go_reading-consume_example =
    go_reading-consume 8 (λ log. 2) take_pair (λ log. Unit) 8 [] in_pieces whole pairs-IsKept tt
      pieces-Carries (omega arith)

-- Two texts of peer 2, which cJSON reads as a change of its state, cut in the middle of the first length
abbrev texts : List (List ℕ)
texts = (123 ∷ 125 ∷ []) ∷ (123 ∷ 32 ∷ 125 ∷ []) ∷ []

-- The number of bytes up to the first closing brace
abbrev up_to_brace : List ℕ → Option ℕ
up_to_brace [] = none
up_to_brace (c ∷ text) =
    let rest = up_to_brace text in
    if c == b'}' then some 1 else elim rest [ none ↦ none | some n ↦ some (n + 1) ]

-- It reads on behind a text that has no brace.
abbrev parsed : List ℕ → Option (Json × ℕ)
parsed text = elim (up_to_brace text) [ none ↦ none | some n ↦ some (change_a, n) ]

abbrev on_wire : Reader
on_wire = record {
  start = 0;
  unread = 0 ∷ 0 ∷ [];
  reads = arrived (0 ∷ 2 ∷ 123 ∷ 125 ∷ 0 ∷ []) ∷ arrived (0 ∷ 0 ∷ 3 ∷ 123 ∷ 32 ∷ 125 ∷ []) ∷ [];
}

on_wire-Carries : Carries 64 on_wire (frames texts)
unfolding big_endian_bytes
on_wire-Carries = record {
  chunks = (0 ∷ 2 ∷ 123 ∷ 125 ∷ 0 ∷ []) ∷ (0 ∷ 0 ∷ 3 ∷ 123 ∷ 32 ∷ 125 ∷ []) ∷ [];
  ahead = refl;
  filled = (omega arith, (omega arith, tt));
  inside = omega arith;
  stream = refl;
}

go_reading-frames_example :
    (c : Connection) × (r' : Reader) × (go_reading 64 wanted
        (callback host Json.null parsed true 2)
        (suc (length (frames texts)))
        (waiting host Json.null parsed true 2 busy ((125 ∷ []) ∷ []))
        on_wire
      ≡ some ((handle_all host Json.null parsed true 2 texts busy).0, c, r'))
    × (c.world ≡ (handle_all host Json.null parsed true 2 texts busy).1)
go_reading-frames_example =
    go_reading-frames host Json.null parsed true 2 64 (omega arith) texts busy ((125 ∷ []) ∷ [])
      on_wire
      ((omega arith, omega arith, omega arith), ((omega arith, omega arith, omega arith), tt))
      ((λ behind. refl), ((λ behind. refl), tt)) on_wire-Carries
