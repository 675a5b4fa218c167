-- ===== src/Fetch/Matching.antt =====
-- What a matcher of a fetch means for a path, as equations between texts.
use cjet.Base.{
  ℕ, zero, suc, ◌+◌, ◌-◌, ◌≤◌, Bool, true, false, not, List, [], ◌∷◌, ◌++◌, length, drop,
  length-append, drop-append, take, take-append-drop, ◌≡◌, ◌≢◌, ◌↔◌, refl, sym, ◌∙◌, ap, All, arith,
}
use cjet.Base.Str.{
  Str, str_eq_iff, strn_eq_iff, has_substring_iff, lower, strcase_eq, strncase_eq,
  has_substring_ignore_case,
}
use cjet.State.{MatchName, PathMatcher}
use cjet.Fetch.Matcher.{
  first_element, equals_match, contains_match, startswith_match, endswith_match,
  containsallof_match, match_by, match_function,
}

-- A text as it is compared: without regard to the case of ASCII letters, or as it is
abbrev pub folded : Bool → Str → Str
folded true s = lower s
folded false s = s

abbrev pub Contains : Str → Str → Type 0
Contains s path = (a : Str) × (b : Str) × (path ≡ a ++ (s ++ b))

-- What the row of the table of matchers with this name asks, for texts as they are compared
unfoldable pub Matches : MatchName → Bool → List Str → Str → Type 0
Matches MatchName.equals ignore ss path = folded ignore (first_element ss) ≡ folded ignore path
Matches MatchName.contains ignore ss path =
    Contains (folded ignore (first_element ss)) (folded ignore path)
Matches MatchName.starts_with ignore ss path =
    (r : Str) × (folded ignore path ≡ folded ignore (first_element ss) ++ r)
Matches MatchName.ends_with ignore ss path =
    (r : Str) × (folded ignore path ≡ r ++ folded ignore (first_element ss))
Matches MatchName.equals_not ignore ss path = folded ignore (first_element ss) ≢ folded ignore path
Matches MatchName.contains_all_of ignore ss path =
    All (λ s. Contains (folded ignore s) (folded ignore path)) ss

equals_match_iff :
    (ignore : Bool) (s path : Str)
    → (equals_match ignore s path ≡ true) ↔ (folded ignore s ≡ folded ignore path)
unfolding equals_match strcase_eq
equals_match_iff false s path = str_eq_iff s path
equals_match_iff true s path = str_eq_iff (lower s) (lower path)

contains_match_iff :
    (ignore : Bool) (s path : Str)
    → (contains_match ignore s path ≡ true) ↔ Contains (folded ignore s) (folded ignore path)
unfolding contains_match has_substring_ignore_case
contains_match_iff false s path = has_substring_iff path s
contains_match_iff true s path = has_substring_iff (lower path) (lower s)

length-lower : (s : Str) → length (lower s) ≡ length s
length-lower [] = refl
length-lower (c ∷ s) = omega (arith, length-lower s)

drop-lower : (n : ℕ) (s : Str) → lower (drop n s) ≡ drop n (lower s)
drop-lower zero s = refl
drop-lower (suc n) [] = refl
drop-lower (suc n) (c ∷ s) = drop-lower n s

startswith_match_iff :
    (ignore : Bool) (s path : Str)
    → (startswith_match ignore s path ≡ true)
      ↔ ((r : Str) × (folded ignore path ≡ folded ignore s ++ r))
unfolding startswith_match strncase_eq
startswith_match_iff false s path = strn_eq_iff s path
startswith_match_iff true s path = rw (sym (length-lower s)) (strn_eq_iff (lower s) (lower path))

-- The end of `t` that is as long as `s`
is_end_iff :
    (s t : Str)
    → ((length s ≤ length t) × (drop (length t - length s) t ≡ s)) ↔ ((r : Str) × (t ≡ r ++ s))
is_end_iff s t = (
  λ (short, e). (
    take (length t - length s) t,
    sym (take-append-drop (length t - length s) t) ∙ ap (λ x. take (length t - length s) t ++ x) e,
  ),
  λ (r, e).
      let n : length t ≡ length r + length s = rw e (length-append r s) in
      (
        omega arith,
        (let k : length t - length s ≡ length r = omega arith in rw k (rw e (drop-append r s))),
      ),
)

folded-drop :
    (ignore : Bool) (n : ℕ) (s : Str) → folded ignore (drop n s) ≡ drop n (folded ignore s)
folded-drop true n s = drop-lower n s
folded-drop false n s = refl

length-folded : (ignore : Bool) (s : Str) → length (folded ignore s) ≡ length s
length-folded true s = length-lower s
length-folded false s = refl

endswith_match_parts :
    (ignore : Bool) (s path : Str)
    → (endswith_match ignore s path ≡ true) ↔ (
        (length s ≤ length path)
        × (folded ignore (drop (length path - length s) path) ≡ folded ignore s))
unfolding endswith_match
endswith_match_parts ignore s path =
    let same = equals_match_iff ignore (drop (length path - length s) path) s in
    (λ h. (ground arith, same.0 (ground arith)), λ h. ground (arith, same.1 h.1, h.0))

endswith_match_iff :
    (ignore : Bool) (s path : Str)
    → (endswith_match ignore s path ≡ true)
      ↔ ((r : Str) × (folded ignore path ≡ r ++ folded ignore s))
endswith_match_iff ignore s path =
    let ends = is_end_iff (folded ignore s) (folded ignore path) in
    let ls = length-folded ignore s in
    let lp = length-folded ignore path in
    let cut : drop (length path - length s) (folded ignore path)
        ≡ drop (length (folded ignore path) - length (folded ignore s)) (folded ignore path) =
      (rw ls (rw lp refl)) in
    let moved = folded-drop ignore (length path - length s) path in
    (
      λ h.
          let (short, e) = (endswith_match_parts ignore s path).0 h in
          ends.0 (omega (arith, ls, lp), sym cut ∙ sym moved ∙ e),
      λ h.
          let (short, e) = ends.1 h in
          (endswith_match_parts ignore s path).1 (omega (arith, ls, lp), moved ∙ cut ∙ e),
    )

containsallof_match_iff :
    (ignore : Bool) (ss : List Str) (path : Str)
    → (containsallof_match ignore ss path ≡ true)
      ↔ All (λ s. Contains (folded ignore s) (folded ignore path)) ss
unfolding containsallof_match
containsallof_match_iff ignore [] path = (λ h. tt, λ h. refl)
containsallof_match_iff ignore (s ∷ ss) path =
    let here = contains_match_iff ignore s path in
    let rest = containsallof_match_iff ignore ss path in
    (
      λ h. (here.0 (ground arith), rest.0 (ground arith)),
      λ h. ground (arith, here.1 h.0, rest.1 h.1),
    )

pub match_by_iff :
    (name : MatchName) (ignore : Bool) (ss : List Str) (path : Str)
    → (match_by name ignore ss path ≡ true) ↔ Matches name ignore ss path
unfolding match_by Matches
match_by_iff MatchName.equals ignore ss path = equals_match_iff ignore (first_element ss) path
match_by_iff MatchName.contains ignore ss path = contains_match_iff ignore (first_element ss) path
match_by_iff MatchName.starts_with ignore ss path =
    startswith_match_iff ignore (first_element ss) path
match_by_iff MatchName.ends_with ignore ss path = endswith_match_iff ignore (first_element ss) path
match_by_iff MatchName.equals_not ignore ss path =
    let same = equals_match_iff ignore (first_element ss) path in
    (λ h e. ground (arith, same.1 e), λ ne. not_true _ (λ h. ne (same.0 h)))
  where
    not_true : (b : Bool) → (b ≡ true → ⊥) → not b ≡ true
    not_true true h = absurd (h refl)
    not_true false h = refl
match_by_iff MatchName.contains_all_of ignore ss path = containsallof_match_iff ignore ss path

-- A matcher accepts a path exactly when the equation between texts that its name stands for holds,
-- up to ASCII case if it ignores case.
pub match_function_iff :
    (pm : PathMatcher) (path : Str)
    → (match_function pm path ≡ true) ↔ Matches pm.name pm.ignore_case pm.path_elements path
unfolding match_function
match_function_iff pm path = match_by_iff pm.name pm.ignore_case pm.path_elements path
