-- ===== src/Websocket/Parameters.antt =====
-- The parameters of an offered extension in websocket.c, as `fill_requested_extension` splits them.
use cjet.Base.{
  ℕ, zero, suc, ◌+◌, Bool, not, ◌&&◌, ◌||◌, Option, none, some, List, [], ◌∷◌, drop, leb, ◌==◌,
  if◌then◌else◌,
}
use cjet.Base.Str.{Str}

-- `a[i]`
unfoldable pub byte_at : ℕ → Str → ℕ
byte_at i [] = 0
byte_at zero (c ∷ s) = c
byte_at (suc i) (c ∷ s) = byte_at i s

-- `isspace`
unfoldable pub is_space : ℕ → Bool
is_space c = c == 32 || (leb 9 c && leb c 13)

-- `parameter[i]` and `parameter_length[i]`
pub record Parameter : Type 0 where
  pub text : Str
  pub size : ℕ

unfoldable pub count_spaces : Str → ℕ
count_spaces [] = 0
count_spaces (c ∷ s) = let rest = count_spaces s in if is_space c then suc rest else 0

-- The loop that splits an offer at its semicolons: `rest` positions are left, of which the next `skip`
-- are jumped over, and `count` parameters came before this one; none for a sixth parameter.
unfoldable pub split_parameters : ℕ → ℕ → Str → Parameter → ℕ → Option (List Parameter)
unfolding count_spaces byte_at
split_parameters zero skip at p count = some (p ∷ [])
split_parameters (suc rest) (suc skip) at p count = split_parameters rest skip (drop 1 at) p count
split_parameters (suc rest) zero at p count =
    let c = byte_at 0 at in
    let p' = if not (is_space c) && not (c == b';') then record p { size = p.size + 1 } else p in
    let spaces = count_spaces (drop 1 at) in
    let next : Parameter = record { text = drop (spaces + 1) at; size = 1 } in
    let others = split_parameters rest (spaces + 1) (drop 1 at) next (count + 1) in
    let longer = split_parameters rest 0 (drop 1 at) p' count in
    if c == b';'
    then if count + 1 == 5 then none else elim others [ none ↦ none | some ps ↦ some (p' ∷ ps) ]
    else longer
