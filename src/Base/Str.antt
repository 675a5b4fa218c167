-- ===== src/Base/Str.antt =====
-- C strings: the bytes before the terminating zero. `strcmp`, `strncmp`, `strstr` of the C library,
-- and the comparisons that ignore the case of ASCII letters.
use Prim.Native.Char.{code}
use Prim.Native.String.{String}
use Prim.Native.Nat.{ℕ, zero, suc, ◌+◌}
use mathlib.Core.Path.{◌≡◌, refl}
use mathlib.Core.Logic.{◌↔◌, inl, inr}
use mathlib.Core.Bool.{Bool, true, false, ◌&&◌, ◌||◌}
use mathlib.Core.List.{List, [], ◌∷◌, ◌++◌, map}
use native.Mathlib.Omega.{arith}
use cjet.Base.Tests.{leb, ◌==◌, ==_iff, Bool-cases, if◌then◌else◌}
use cjet.Base.Lists.{length}

abbrev pub Str : Type 0
Str = List ℕ

-- The bytes of an ASCII literal.
abbrev pub codes : String → Str
codes String.[] = []
codes (String.◌∷◌ c s) = code c ∷ codes s

-- `strcmp (s, t) == 0`
unfoldable pub str_eq : Str → Str → Bool
str_eq [] [] = true
str_eq [] (d ∷ t) = false
str_eq (c ∷ s) [] = false
str_eq (c ∷ s) (d ∷ t) = c == d && str_eq s t

pub str_eq_iff : (s t : Str) → (str_eq s t ≡ true) ↔ (s ≡ t)
unfolding str_eq
str_eq_iff [] [] = ground arith
str_eq_iff [] (d ∷ t) = ground arith
str_eq_iff (c ∷ s) [] = ground arith
str_eq_iff (c ∷ s) (d ∷ t) = ground (arith, ==_iff c d, str_eq_iff s t)

pub str_eq_refl : (s : Str) → str_eq s s ≡ true
str_eq_refl s = (str_eq_iff s s).1 refl

-- `strncmp (s, t, n) == 0`
unfoldable pub strn_eq : ℕ → Str → Str → Bool
strn_eq zero s t = true
strn_eq (suc n) [] [] = true
strn_eq (suc n) [] (d ∷ t) = false
strn_eq (suc n) (c ∷ s) [] = false
strn_eq (suc n) (c ∷ s) (d ∷ t) = c == d && strn_eq n s t

-- `strstr (s, t) != NULL`
unfoldable pub has_substring : Str → Str → Bool
has_substring [] t = strn_eq (length t) t []
has_substring (c ∷ s) t = strn_eq (length t) t (c ∷ s) || has_substring s t

unfoldable pub to_lower : ℕ → ℕ
to_lower c = if leb b'A' c && leb c b'Z' then c + 32 else c

-- `strcasecmp`, `strncasecmp` and `strcasestr` compare the bytes after `tolower`.
abbrev pub lower : Str → Str
lower s = map to_lower s

unfoldable pub strcase_eq : Str → Str → Bool
strcase_eq s t = str_eq (lower s) (lower t)

unfoldable pub strncase_eq : ℕ → Str → Str → Bool
strncase_eq n s t = strn_eq n (lower s) (lower t)

unfoldable pub has_substring_ignore_case : Str → Str → Bool
has_substring_ignore_case s t = has_substring (lower s) (lower t)

-- The comparisons against list equations, one for each function.
pub strn_eq_iff : (t s : Str) → (strn_eq (length t) t s ≡ true) ↔ ((r : Str) × (s ≡ t ++ r))
unfolding strn_eq
strn_eq_iff [] s = (λ h. (s, refl), λ h. refl)
strn_eq_iff (c ∷ t) [] = (λ h. cc, λ h. cc (h.1))
strn_eq_iff (c ∷ t) (d ∷ s) = (
  λ h.
      let p : (c ≡ d) × (strn_eq (length t) t s ≡ true) = ground arith in
      let q = (strn_eq_iff t s).0 p.1 in (q.0, cc (p.0, q.1)),
  λ (r, e). ground (arith, (strn_eq_iff t s).1 (r, cc e)),
)

pub has_substring_found :
    (s t : Str) → has_substring s t ≡ true → (a : Str) × (b : Str) × (s ≡ a ++ (t ++ b))
unfolding has_substring
has_substring_found [] t h = let (r, e) = (strn_eq_iff t []).0 h in ([], r, e)
has_substring_found (c ∷ s) t h = elim (Bool-cases (strn_eq (length t) t (c ∷ s))) [
  | inl here ↦ (let (r, e) = (strn_eq_iff t (c ∷ s)).0 here in ([], r, e))
  | inr not_here ↦ (let (a, b, e) = has_substring_found s t (ground arith) in (c ∷ a, b, cc e))
]

pub has_substring-append : (a t b : Str) → has_substring (a ++ (t ++ b)) t ≡ true
unfolding has_substring
has_substring-append [] [] [] = unfold strn_eq in refl
has_substring-append [] [] (c ∷ b) = unfold strn_eq in refl
has_substring-append [] (c ∷ t) b = ground (arith, (strn_eq_iff (c ∷ t) (c ∷ t ++ b)).1 (b, refl))
has_substring-append (x ∷ a) t b = ground (arith, has_substring-append a t b)

-- `strstr` finds a text exactly where the searched text holds it.
pub has_substring_iff :
    (s t : Str) → (has_substring s t ≡ true) ↔ ((a : Str) × (b : Str) × (s ≡ a ++ (t ++ b)))
has_substring_iff s t = (has_substring_found s t, λ (a, b, e). rw e (has_substring-append a t b))
