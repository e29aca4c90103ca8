-- ===== src/Irc/Wide/Neon.antt =====
-- irc/wide/aarch64/neon.rs: vectors of 16 bytes, with a mask in a `u64` that has four bits for
-- each lane.
use tmi_rs.Prelude.{
  ℕ, zero, suc, ◌+◌, ◌-◌, ◌*◌, ◌/◌, ◌%◌, ◌^◌, ◌<◌, bit_and, Bool, true, false, not, ◌&&◌, List, [],
  ◌∷◌, some, ◌≡◌, refl, ap, ◌∙◌, inl, inr, Option-cases, arith, ◌==◌, map, length,
}
use native.Mathlib.Decide.{ℕ_discrete}
use tmi_rs.Irc.Wide.{Vector, IsVector, eq, first, any, clear}
use tmi_rs.Irc.Wide.Lanes.{length-map_eq, length-clear, first-lt}
use tmi_rs.Irc.Wide.Bits.{bits, trailing_zeros, bit_and-high, trailing_zeros-bits, bits-any}

-- `vreinterpretq_u16_u8`, then `vshrn_n_u16(_, 4)`: two lanes are one little-endian number, of
-- which the bits from 4 up to 12 are kept. The bytes make one number, the first lowest.
unfoldable pub movemask : List ℕ → ℕ
movemask [] = 0
movemask (a ∷ []) = a / 16 % 256
movemask (a ∷ b ∷ lanes) = (a + b * 256) / 16 % 256 + 256 * movemask lanes

-- `Mask::clear_to`: `self.0 &= !(0xffff_ffff_ffff_ffff >> (63 - (m.0 + 3)))`
unfoldable pub clear_to : ℕ → ℕ → ℕ
clear_to mask m = bit_and mask (2 ^ 64 - 1 - (2 ^ 64 - 1) / 2 ^ (63 - (m + 3)))

abbrev pub neon : Vector
neon = record {
  size = 16;
  movemask = movemask;
  has_match = λ mask. not (mask == 0);
  first_match = trailing_zeros 64;
  as_index = λ m. m / 4;
  clear_to = clear_to;
}

-- Each lane four times.
abbrev nibbles : List Bool → List Bool
nibbles [] = []
nibbles (b ∷ bs) = b ∷ b ∷ b ∷ b ∷ nibbles bs

abbrev IsMask : List Bool → ℕ → Type 0
IsMask bs m = (m ≡ bits (nibbles bs)) × (length bs ≡ 16)

-- An even number of lanes, all ones or all zeros.
movemask-eq :
    (n byte : ℕ) (chunk : List ℕ)
    → length chunk ≡ 2 * n
    → movemask (eq chunk byte) ≡ bits (nibbles (map (λ c. c == byte) chunk))
unfolding movemask eq bits
movemask-eq n byte [] h = refl
movemask-eq n byte (a ∷ []) h = absurd (omega arith)
movemask-eq n byte (a ∷ b ∷ chunk) h = ground (arith, movemask-eq (n - 1) byte chunk (omega arith))

length-nibbles : (bs : List Bool) → length (nibbles bs) ≡ 4 * length bs
length-nibbles [] = omega arith
length-nibbles (b ∷ bs) = omega (arith, length-nibbles bs)

first-nibbles : (bs : List Bool) (i : ℕ) → first bs ≡ some i → first (nibbles bs) ≡ some (4 * i)
first-nibbles [] i e = cc
first-nibbles (true ∷ bs) i e = ground arith
first-nibbles (false ∷ bs) i e = elim (Option-cases (first bs)) [
  | inl f ↦ cc
  | inr (j, f) ↦ ground (arith, first-nibbles bs j f)
]

any-nibbles : (bs : List Bool) → any (nibbles bs) ≡ any bs
any-nibbles [] = refl
any-nibbles (true ∷ bs) = refl
any-nibbles (false ∷ bs) = any-nibbles bs

clear-nibbles : (n m : ℕ) (bs : List Bool) → m ≡ 4 * n → clear m (nibbles bs) ≡ nibbles (clear n bs)
clear-nibbles zero zero bs e = refl
clear-nibbles zero (suc m) bs e = absurd (omega arith)
clear-nibbles (suc n) (suc (suc (suc (suc m)))) (b ∷ bs) e =
    ap (λ l. false ∷ false ∷ false ∷ false ∷ l) (clear-nibbles n m bs (omega arith))
clear-nibbles (suc n) (suc m) [] e = refl
clear-nibbles (suc n) _ _ e = absurd (omega arith)

above : (n : ℕ) → Bool
above zero = true
above (suc i) =
    (2 ^ 64 - 1 - (2 ^ 64 - 1) / 2 ^ (63 - (4 * i + 3)) == 2 ^ 64 - 2 ^ (4 * suc i)) && above i

above_all : above 16 ≡ true
unfolding above
above_all = refl

-- The operand of `&=` has its ones above the nibble of lane `i`.
above_sound :
    (n i : ℕ)
    → above n ≡ true
    → i < n
    → 2 ^ 64 - 1 - (2 ^ 64 - 1) / 2 ^ (63 - (4 * i + 3)) ≡ 2 ^ 64 - 2 ^ (4 * suc i)
unfolding above
above_sound zero i h lt = absurd (omega arith)
above_sound (suc n) i h lt = elim (ℕ_discrete i n) [
  | yes e ↦ rw e (ground arith)
  | no ne ↦ ground (arith, above_sound n i)
]

first_match-nibbles :
    (bs : List Bool) (i : ℕ)
    → length bs ≡ 16
    → first bs ≡ some i
    → trailing_zeros 64 (bits (nibbles bs)) ≡ 4 * i
first_match-nibbles bs i l e =
    trailing_zeros-bits 64 (4 * i) (nibbles bs) (omega (arith, length-nibbles bs))
      (first-nibbles bs i e)

IsMask-clear_to :
    (bs cs : List Bool) (m n i : ℕ)
    → IsMask bs m
    → IsMask cs n
    → first bs ≡ some i
    → IsMask (clear (suc i) cs) (clear_to n (trailing_zeros 64 m))
unfolding clear_to
IsMask-clear_to bs cs m n i (em, lm) (en, ln) e =
    let lt = first-lt bs i e in
    (
      rw (em, first_match-nibbles bs i lm e, en, above_sound 16 i above_all (omega arith))
          (bit_and-high 64 (4 * suc i) (nibbles cs) (omega (arith, length-nibbles cs)) (omega arith)
            ∙ ap bits (clear-nibbles (suc i) (4 * suc i) cs refl)),
      length-clear (suc i) cs ∙ ln,
    )

-- The vector with four bits for each lane keeps the contract.
pub neon-IsVector : IsVector neon
neon-IsVector = record {
  Represents = IsMask;
  size_pos = omega arith;
  movemask_lem = λ chunk byte l. (movemask-eq 8 byte chunk l, length-map_eq byte chunk ∙ l);
  has_match_lem = λ bs m r. rw r.0 (bits-any (nibbles bs) ∙ any-nibbles bs);
  first_match_lem = λ bs m i r e. rw (r.0, first_match-nibbles bs i r.1 e) (omega arith);
  clear_to_lem = IsMask-clear_to;
}
