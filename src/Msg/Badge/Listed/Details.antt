-- ===== src/Msg/Badge/Listed/Details.antt =====
-- The detail of a badge that is found, against what the list of details says.
use tmi_rs.Prelude.{
  List, [], ◌∷◌, ◌++◌, Option, none, some, ◌≡◌, ◌≢◌, inl, inr, refl, sym, ap, ◌∙◌, All, Bool-cases,
  true, false,
}
use tmi_rs.Str.{Str, eq}
use tmi_rs.Str.Laws.{eq_iff, eq_self}
use tmi_rs.Msg.Badge.{find_info}
use tmi_rs.Msg.Badge.Listed.{IsDetail}

pub ne_of_eq : (s t : Str) → eq s t ≡ false → s ≢ t
ne_of_eq s t miss e = let same = (eq_iff s t).1 e in let bad : true ≡ false = sym same ∙ miss in cc

pub eq-ne : (s t : Str) → s ≢ t → eq s t ≡ false
eq-ne s t ne = elim (Bool-cases (eq s t)) [
  | inl hit ↦ absurd (ne ((eq_iff s t).0 hit))
  | inr miss ↦ miss
]

IsDetail-cons :
    (name needle value : Str) (infos : List (Str × Str)) (o : Option Str)
    → needle ≢ name
    → IsDetail name infos o
    → IsDetail name ((needle, value) ∷ infos) o
IsDetail-cons name needle value infos none ne rest = (ne, rest)
IsDetail-cons name needle value infos (some found) ne (before, after, e, others) =
    ((needle, value) ∷ before, after, ap (λ l. (needle, value) ∷ l) e, (ne, others))

-- The detail that is found.
pub find_info-IsDetail :
    (name : Str) (infos : List (Str × Str)) → IsDetail name infos (find_info name infos)
unfolding find_info
find_info-IsDetail name [] = tt
find_info-IsDetail name ((needle, value) ∷ infos) = elim (Bool-cases (eq needle name)) [
  | inl hit ↦ rw hit ([], infos, ap (λ n. (n, value) ∷ infos) ((eq_iff needle name).0 hit), tt)
  | inr miss ↦ rw miss (
      IsDetail-cons name needle value infos (find_info name infos) (ne_of_eq needle name miss)
        (find_info-IsDetail name infos))
]

find_info-none :
    (name : Str) (infos : List (Str × Str))
    → All (λ info. info.0 ≢ name) infos
    → find_info name infos ≡ none
unfolding find_info
find_info-none name [] h = refl
find_info-none name ((needle, value) ∷ infos) (ne, h) =
    rw (eq-ne needle name ne) (find_info-none name infos h)

find_info-first :
    (name value : Str) (before after : List (Str × Str))
    → All (λ info. info.0 ≢ name) before
    → find_info name (before ++ (name, value) ∷ after) ≡ some value
unfolding find_info
find_info-first name value [] after h = rw (eq_self name) refl
find_info-first name value ((needle, other_value) ∷ before) after (ne, h) =
    rw (eq-ne needle name ne) (find_info-first name value before after h)

-- It is the only one.
pub IsDetail-find_info :
    (name : Str) (infos : List (Str × Str)) (o : Option Str)
    → IsDetail name infos o
    → find_info name infos ≡ o
IsDetail-find_info name infos none h = find_info-none name infos h
IsDetail-find_info name infos (some value) (before, after, e, h) =
    rw e (find_info-first name value before after h)
