-- ===== src/Str/Numbers.antt =====
-- `str::parse` for the integer types: an optional sign, at least one digit, and a value that fits.
pub mod Laws
use tmi_rs.Prelude.{
  ℕ, zero, suc, ◌+◌, ◌-◌, ◌*◌, ◌^◌, Bool, ◌||◌, List, [], ◌∷◌, Option, none, some, map?, ltb, leb,
  ◌==◌, if◌then◌else◌,
}
use tmi_rs.Prelude.Int.{ℤ, pos, negsuc}
use tmi_rs.Str.{Str}

-- The digits behind `n`; the value stays below `bound`.
unfoldable pub digits : ℕ → Str → ℕ → Option ℕ
digits bound [] n = some n
digits bound (c ∷ s) n =
    let rest = digits bound s (n * 10 + (c - b'0')) in
    if ltb c b'0' || ltb b'9' c
    then none
    else if leb bound (n * 10 + (c - b'0'))
    then none
    else rest

-- At least one digit.
unfoldable pub magnitude : ℕ → Str → Option ℕ
unfolding digits
magnitude bound [] = none
magnitude bound (c ∷ s) = digits bound (c ∷ s) 0

-- An unsigned type of `bits` bits: a plus sign may stand in front.
unfoldable pub parse_unsigned : ℕ → Str → Option ℕ
unfolding magnitude
parse_unsigned bits [] = none
parse_unsigned bits (c ∷ s) =
    if c == b'+' then magnitude (2 ^ bits) s else magnitude (2 ^ bits) (c ∷ s)

-- The integer below zero with this magnitude.
abbrev pub negated : ℕ → ℤ
negated zero = pos 0
negated (suc n) = negsuc n

-- A signed type of `suc bits` bits.
unfoldable pub parse_signed : ℕ → Str → Option ℤ
unfolding magnitude
parse_signed bits [] = none
parse_signed bits (c ∷ s) =
    if c == b'+'
    then map? (magnitude (2 ^ bits) s) pos
    else if c == b'-'
    then map? (magnitude (2 ^ bits + 1) s) negated
    else map? (magnitude (2 ^ bits) (c ∷ s)) pos

abbrev pub parse_u8 : Str → Option ℕ
parse_u8 = parse_unsigned 8

abbrev pub parse_u32 : Str → Option ℕ
parse_u32 = parse_unsigned 32

abbrev pub parse_u64 : Str → Option ℕ
parse_u64 = parse_unsigned 64

abbrev pub parse_i64 : Str → Option ℤ
parse_i64 = parse_signed 63
