-- ===== src/Str/Numbers/Laws.antt =====
-- What the parser of an integer accepts, against the value of its digits.
use tmi_rs.Prelude.{
  ℕ, zero, suc, ◌+◌, ◌-◌, ◌*◌, ◌^◌, ◌≤◌, ◌<◌, Bool-cases, inl, inr, false, ◌||◌, [], ◌∷◌, none,
  some, ◌≡◌, ◌≢◌, ◌↔◌, refl, ap, ◌∙◌, arith, ltb, leb, if◌then◌else◌, ◌==◌, ==_false, All,
}
use tmi_rs.Prelude.Int.{pos}
use tmi_rs.Str.{Str}
use tmi_rs.Str.Numbers.{digits, magnitude, parse_unsigned, parse_signed}

-- A text of decimal digits.
abbrev pub IsDigit : ℕ → Type 0
IsDigit c = (48 ≤ c) × (c ≤ 57)

-- The value of the digits behind `n`.
abbrev pub value_from : ℕ → Str → ℕ
value_from n [] = n
value_from n (c ∷ s) = value_from (n * 10 + (c - 48)) s

-- The decimal value of a text of digits.
abbrev pub decimal : Str → ℕ
decimal s = value_from 0 s

value_from-le : (n : ℕ) (s : Str) → n ≤ value_from n s
value_from-le n [] = omega arith
value_from-le n (c ∷ s) = omega (arith, value_from-le (n * 10 + (c - 48)) s)

-- A value that fits is found, since no number on the way is larger.
digits-fits :
    (bound n : ℕ) (s : Str)
    → All IsDigit s
    → value_from n s < bound
    → digits bound s n ≡ some (value_from n s)
unfolding digits
digits-fits bound n [] h lt = refl
digits-fits bound n (c ∷ s) ((lo, hi), h) lt =
    ground
      (arith, digits-fits bound (n * 10 + (c - 48)) s h lt, value_from-le (n * 10 + (c - 48)) s)

is_digit : (c : ℕ) → ltb c b'0' || ltb b'9' c ≡ false → IsDigit c
is_digit c h = ground arith

below : (bound n : ℕ) → leb bound n ≡ false → n < bound
below bound n h = ground arith

-- Only the value is found, and it fits.
digits-some :
    (bound n m : ℕ) (s : Str)
    → n < bound
    → digits bound s n ≡ some m
    → All IsDigit s × (value_from n s ≡ m) × (m < bound)
unfolding digits
digits-some bound n m [] lt e = let same : n ≡ m = cc in (tt, same, omega arith)
digits-some bound n m (c ∷ s) lt e = elim (Bool-cases (ltb c b'0' || ltb b'9' c)) [
  | inl other ↦ let bad : none ≡ some m = rw other at e in cc
  | inr digit ↦ elim (Bool-cases (leb bound (n * 10 + (c - 48)))) [
    | inl over ↦ let bad : none ≡ some m = rw (digit, over) at e in cc
    | inr fits ↦
        let (ds, same, under) =
          digits-some bound (n * 10 + (c - 48)) m s (below bound _ fits) (rw (digit, fits) at e) in
        ((is_digit c digit, ds), same, under)
  ]
]

pow_pos : (bits : ℕ) → 0 < 2 ^ bits
pow_pos zero = omega arith
pow_pos (suc bits) = omega (arith, pow_pos bits)

-- The digits of a text that a plus sign may precede.
abbrev pub unsigned_digits : Str → Str
unsigned_digits [] = []
unsigned_digits (c ∷ s) = if c == b'+' then s else c ∷ s

-- `n` is read from one digit or more of that decimal value, and it is below the bound.
abbrev pub Reads : ℕ → Str → ℕ → Type 0
Reads bound s n = (s ≢ []) × All IsDigit s × (decimal s ≡ n) × (n < bound)

magnitude_iff : (bound n : ℕ) (s : Str) → 0 < bound → (magnitude bound s ≡ some n) ↔ Reads bound s n
unfolding magnitude
magnitude_iff bound n [] lt = (λ e. cc, λ reads. absurd (reads.0 refl))
magnitude_iff bound n (c ∷ s) lt = (
  λ e. let (ds, same, under) = digits-some bound 0 n (c ∷ s) lt e in ((λ h. cc), ds, same, under),
  λ (ne, ds, same, under).
      digits-fits bound 0 (c ∷ s) ds (omega (arith, same, under)) ∙ ap some same,
)

-- A type of `bits` bits reads `n` exactly from the texts that are one digit or more, behind a plus
-- sign or none, whose decimal value is `n`, if `n` fits.
pub parse_unsigned_iff :
    (bits n : ℕ) (s : Str)
    → (parse_unsigned bits s ≡ some n) ↔ Reads (2 ^ bits) (unsigned_digits s) n
unfolding parse_unsigned
parse_unsigned_iff bits n [] = (λ e. cc, λ reads. absurd (reads.0 refl))
parse_unsigned_iff bits n (c ∷ s) = elim (Bool-cases (c == b'+')) [
  | inl plus ↦ rw plus (magnitude_iff (2 ^ bits) n s (pow_pos bits))
  | inr digit ↦ rw digit (magnitude_iff (2 ^ bits) n (c ∷ s) (pow_pos bits))
]

-- Digits without a sign, whose value fits, are read as that value by a signed type.
pub parse_signed-decimal :
    (bits : ℕ) (s : Str)
    → s ≢ []
    → All IsDigit s
    → decimal s < 2 ^ bits
    → parse_signed bits s ≡ some (pos (decimal s))
unfolding parse_signed
parse_signed-decimal bits [] ne ds lt = absurd (ne refl)
parse_signed-decimal bits (c ∷ s) ne ((lo, hi), ds) lt =
    let read : magnitude (2 ^ bits) (c ∷ s) ≡ some (decimal (c ∷ s)) =
      (magnitude_iff (2 ^ bits) _ (c ∷ s) (pow_pos bits)).1 (ne, ((lo, hi), ds), refl, lt) in
    rw (==_false c b'+' (λ e. omega arith), ==_false c b'-' (λ e. omega arith), read) refl
