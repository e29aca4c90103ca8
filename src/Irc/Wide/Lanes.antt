-- ===== src/Irc/Wide/Lanes.antt =====
-- Lists of lanes: their lengths, the first lane that is set, and clearing.
use tmi_rs.Prelude.{
  ℕ, zero, suc, ◌+◌, ◌<◌, Bool, true, false, List, [], ◌∷◌, ◌++◌, none, some, ◌≡◌, refl, ap, inl,
  inr, map?, arith, ◌==◌, map, length, replicate, Option-cases,
}
use tmi_rs.Irc.Wide.{first, any, clear}

pub length-map_eq : (byte : ℕ) (chunk : List ℕ) → length (map (λ c. c == byte) chunk) ≡ length chunk
length-map_eq byte [] = refl
length-map_eq byte (c ∷ chunk) = ap suc (length-map_eq byte chunk)

pub length-clear : (n : ℕ) (bs : List Bool) → length (clear n bs) ≡ length bs
length-clear zero bs = refl
length-clear (suc n) [] = refl
length-clear (suc n) (b ∷ bs) = ap suc (length-clear n bs)

pub first-lt : (bs : List Bool) (i : ℕ) → first bs ≡ some i → i < length bs
first-lt [] i e = cc
first-lt (true ∷ bs) i e = ground arith
first-lt (false ∷ bs) i e = elim (Option-cases (first bs)) [
  | inl f ↦ cc
  | inr (j, f) ↦ ground (arith, first-lt bs j f)
]

pub any-first-none : (bs : List Bool) → first bs ≡ none → any bs ≡ false
any-first-none [] e = refl
any-first-none (true ∷ bs) e = cc
any-first-none (false ∷ bs) e = elim (Option-cases (first bs)) [
  | inl f ↦ any-first-none bs f
  | inr (j, f) ↦ cc
]

pub any-first-some : (bs : List Bool) (i : ℕ) → first bs ≡ some i → any bs ≡ true
any-first-some [] i e = cc
any-first-some (true ∷ bs) i e = refl
any-first-some (false ∷ bs) i e = elim (Option-cases (first bs)) [
  | inl f ↦ cc
  | inr (j, f) ↦ any-first-some bs j f
]

-- Behind lanes that are not set, the first lane is found in the rest.
pub first-append :
    (xs ys : List Bool) → first xs ≡ none → first (xs ++ ys) ≡ map? (first ys) (λ i. length xs + i)
first-append [] ys e = elim (Option-cases (first ys)) [
  | inl f ↦ rw f refl
  | inr (j, f) ↦ rw f (ap some (omega arith))
]
first-append (true ∷ xs) ys e = cc
first-append (false ∷ xs) ys e = elim (Option-cases (first xs)) [
  | inl f ↦ elim (Option-cases (first ys)) [
    | inl g ↦ rw (first-append xs ys f, g) refl
    | inr (j, g) ↦ rw (first-append xs ys f, g) (ap some (omega arith))
  ]
  | inr (j, f) ↦ cc
]

pub clear-append :
    (xs ys : List Bool) (b : Bool)
    → clear (suc (length xs)) (xs ++ b ∷ ys) ≡ replicate (suc (length xs)) false ++ ys
clear-append [] ys b = refl
clear-append (x ∷ xs) ys b = ap (λ l. false ∷ l) (clear-append xs ys b)

pub first-replicate : (n : ℕ) → first (replicate n false) ≡ none
first-replicate zero = refl
first-replicate (suc n) = rw (first-replicate n)
