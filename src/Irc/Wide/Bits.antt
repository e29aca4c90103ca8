-- ===== src/Irc/Wide/Bits.antt =====
-- A mask as the number of a list of bits, the lowest first, and the operations on it.
use tmi_rs.Prelude.{
  ℕ, zero, suc, ◌+◌, ◌-◌, ◌*◌, ◌/◌, ◌%◌, ◌^◌, ◌≤◌, ◌<◌, min, bit_and, Bool, true, false, not, List,
  [], ◌∷◌, some, ◌≡◌, refl, sym, ◌∙◌, arith, ◌==◌, if◌then◌else◌, length, Option-cases, inl, inr,
}
use Prim.Native.Nat.{digits, bit_and-bitwise}
use native.Mathlib.Decide.{dec_lt}
use native.Mathlib.Nat.{two-pow-succ, one-le-pow, pow-le-pow_right}
use tmi_rs.Irc.Wide.{first, any, clear}

abbrev pub bit : Bool → ℕ
bit b = if b then 1 else 0

unfoldable pub bits : List Bool → ℕ
bits [] = 0
bits (b ∷ bs) = bit b + 2 * bits bs

-- `u32::trailing_zeros`, `u64::trailing_zeros`, by the width.
unfoldable pub trailing_zeros : ℕ → ℕ → ℕ
trailing_zeros zero x = 0
trailing_zeros (suc w) x = let rest = trailing_zeros w (x / 2) in if x % 2 == 1 then 0 else suc rest

-- The recursion that `and` stands for, one digit at a time.
abbrev and_within : ℕ → ℕ → ℕ → ℕ
and_within fuel a b = digits (λ _. zero) min fuel a b

and_within-zero : (fuel b : ℕ) → and_within fuel zero b ≡ 0
and_within-zero zero b = refl
and_within-zero (suc fuel) b = refl

and_within-pos :
    (fuel a b : ℕ)
    → 0 < a
    → and_within (suc fuel) a b ≡ and_within fuel (a / 2) (b / 2) * 2 + min (a % 2) (b % 2)
and_within-pos fuel zero b h = absurd (omega arith)
and_within-pos fuel (suc a) b h = refl

bits-clear-zero : (k : ℕ) (bs : List Bool) → bits bs ≡ 0 → bits (clear k bs) ≡ 0
unfolding bits
bits-clear-zero zero bs h = h
bits-clear-zero (suc k) [] h = refl
bits-clear-zero (suc k) (b ∷ bs) h = ground (arith, bits-clear-zero k bs)

-- One step on a mask of ones above bit `k`.
high_half :
    (w k : ℕ)
    → k ≤ w
    → ((2 ^ suc w - 2 ^ suc k) / 2 ≡ 2 ^ w - 2 ^ k) × ((2 ^ suc w - 2 ^ suc k) % 2 ≡ 0)
high_half w k h =
    omega (arith, two-pow-succ w, two-pow-succ k, pow-le-pow_right {n = 2} (omega arith) h)

ones_half : (w : ℕ) → ((2 ^ suc w - 1) / 2 ≡ 2 ^ w - 1) × ((2 ^ suc w - 1) % 2 ≡ 1)
ones_half w = omega (arith, two-pow-succ w, one-le-pow w 2)

lowest : (b : Bool) (n : ℕ) → ((bit b + 2 * n) / 2 ≡ n) × ((bit b + 2 * n) % 2 ≡ bit b)
lowest b n = ground arith

-- The step of `and_within` at a bit and the bits above it, with a mask `m`.
and_within_step :
    (fuel : ℕ) (b : Bool) (n m half low r : ℕ)
    → 0 < bit b + 2 * n
    → m / 2 ≡ half
    → m % 2 ≡ low
    → and_within fuel n half ≡ r
    → and_within (suc fuel) (bit b + 2 * n) m ≡ r * 2 + min (bit b) low
and_within_step fuel b n m half low r h eh el er =
    rw (and_within-pos fuel (bit b + 2 * n) m h, (lowest b n).0, (lowest b n).1, eh, el, er) refl

no_bits :
    (fuel m k : ℕ) (bs : List Bool) → bits bs ≡ 0 → and_within fuel (bits bs) m ≡ bits (clear k bs)
no_bits fuel m k bs z = rw z (and_within-zero fuel m) ∙ sym (bits-clear-zero k bs z)

and_within-high :
    (fuel w k : ℕ) (bs : List Bool)
    → bits bs ≤ fuel
    → length bs ≤ w
    → k ≤ w
    → and_within fuel (bits bs) (2 ^ w - 2 ^ k) ≡ bits (clear k bs)
unfolding bits
and_within-high fuel w zero [] h l kw = and_within-zero fuel _
and_within-high fuel w (suc k) [] h l kw = and_within-zero fuel _
and_within-high fuel zero k (b ∷ bs) h l kw = absurd (omega arith)
and_within-high zero (suc w) k (b ∷ bs) h l kw = sym (bits-clear-zero k (b ∷ bs) (omega arith))
and_within-high (suc fuel) (suc w) zero (b ∷ bs) h l kw = elim (dec_lt 0 (bit b + 2 * bits bs)) [
  | yes p ↦
      let ih = and_within-high fuel w zero bs (omega arith) (omega arith) (omega arith) in
      and_within_step fuel b (bits bs) _ (2 ^ w - 2 ^ 0) 1 (bits bs) p (ones_half w).0
        (ones_half w).1 ih
      ∙ ground arith
  | no p ↦ no_bits (suc fuel) _ zero (b ∷ bs) (omega arith)
]
and_within-high (suc fuel) (suc w) (suc k) (b ∷ bs) h l kw = elim (dec_lt 0 (bit b + 2 * bits bs)) [
  | yes p ↦
      let ih = and_within-high fuel w k bs (omega arith) (omega arith) (omega arith) in
      and_within_step fuel b (bits bs) _ (2 ^ w - 2 ^ k) 0 (bits (clear k bs)) p
        (high_half w k (omega arith)).0 (high_half w k (omega arith)).1 ih
      ∙ ground arith
  | no p ↦ no_bits (suc fuel) _ (suc k) (b ∷ bs) (omega arith)
]

-- `and` with the ones from bit `k` up to the width clears the bits below `k`.
pub bit_and-high :
    (w k : ℕ) (bs : List Bool)
    → length bs ≤ w
    → k ≤ w
    → bit_and (bits bs) (2 ^ w - 2 ^ k) ≡ bits (clear k bs)
bit_and-high w k bs h kw =
    bit_and-bitwise (bits bs) (2 ^ w - 2 ^ k) ∙ and_within-high (bits bs) w k bs (omega arith) h kw

pub trailing_zeros-bits :
    (w i : ℕ) (bs : List Bool) → length bs ≤ w → first bs ≡ some i → trailing_zeros w (bits bs) ≡ i
unfolding trailing_zeros bits
trailing_zeros-bits w i [] h e = cc
trailing_zeros-bits zero i (b ∷ bs) h e = absurd (omega arith)
trailing_zeros-bits (suc w) i (true ∷ bs) h e = ground (arith, lowest true (bits bs))
trailing_zeros-bits (suc w) i (false ∷ bs) h e = elim (Option-cases (first bs)) [
  | inl f ↦ cc
  | inr (j, f) ↦ ground (arith, lowest false (bits bs), trailing_zeros-bits w j bs (omega arith) f)
]

pub bits-any : (bs : List Bool) → not (bits bs == 0) ≡ any bs
unfolding bits
bits-any [] = refl
bits-any (b ∷ bs) = ground (arith, bits-any bs)
