-- ===== src/Irc/Wide/X86.antt =====
-- irc/wide/x86_64/sse2.rs and avx2.rs: vectors of 16 and of 32 bytes, with a mask in a `u32` that
-- has one bit for each lane.
use tmi_rs.Prelude.{
  ℕ, zero, suc, ◌-◌, ◌/◌, ◌^◌, ◌≤◌, ◌<◌, bit_and, Bool, true, not, ◌&&◌, List, [], ◌∷◌, some, ◌≡◌,
  refl, ap, ◌∙◌, arith, leb, ◌==◌, map, length,
}
use tmi_rs.Irc.Wide.{Vector, IsVector, eq, first, clear}
use native.Mathlib.Decide.{ℕ_discrete}
use tmi_rs.Irc.Wide.Lanes.{length-map_eq, length-clear, first-lt}
use tmi_rs.Irc.Wide.Bits.{bits, trailing_zeros, bit_and-high, trailing_zeros-bits, bits-any}

-- The move mask instruction takes the highest bit of each lane.
unfoldable pub movemask : List ℕ → ℕ
unfolding bits
movemask lanes = bits (map (leb 128) lanes)

-- `Mask::clear_to`: `self.0 &= !(0xffff_ffff >> (31 - m.0))`
unfoldable pub clear_to : ℕ → ℕ → ℕ
clear_to mask m = bit_and mask (2 ^ 32 - 1 - (2 ^ 32 - 1) / 2 ^ (31 - m))

-- The vectors of `size` bytes.
abbrev pub vector : ℕ → Vector
vector size = record {
  size = size;
  movemask = movemask;
  has_match = λ mask. not (mask == 0);
  first_match = trailing_zeros 32;
  as_index = λ m. m;
  clear_to = clear_to;
}

abbrev pub sse2 : Vector
sse2 = vector 16

abbrev pub avx2 : Vector
avx2 = vector 32

-- A mask stands for its bits.
abbrev IsMask : ℕ → List Bool → ℕ → Type 0
IsMask size bs m = (m ≡ bits bs) × (length bs ≡ size)

lanes_eq : (byte : ℕ) (chunk : List ℕ) → map (leb 128) (eq chunk byte) ≡ map (λ c. c == byte) chunk
unfolding eq
lanes_eq byte [] = refl
lanes_eq byte (c ∷ chunk) = ground (arith, lanes_eq byte chunk)

-- The operand of `&=` has its ones above bit `m`.
above : (n : ℕ) → Bool
above zero = true
above (suc m) = (2 ^ 32 - 1 - (2 ^ 32 - 1) / 2 ^ (31 - m) == 2 ^ 32 - 2 ^ suc m) && above m

above_all : above 32 ≡ true
unfolding above
above_all = refl

above_sound :
    (n m : ℕ)
    → above n ≡ true
    → m < n
    → 2 ^ 32 - 1 - (2 ^ 32 - 1) / 2 ^ (31 - m) ≡ 2 ^ 32 - 2 ^ suc m
unfolding above
above_sound zero m h lt = absurd (omega arith)
above_sound (suc n) m h lt = elim (ℕ_discrete m n) [
  | yes e ↦ rw e (ground arith)
  | no ne ↦ ground (arith, above_sound n m)
]

IsMask-clear_to :
    (size : ℕ) (bs cs : List Bool) (m n i : ℕ)
    → size ≤ 32
    → IsMask size bs m
    → IsMask size cs n
    → first bs ≡ some i
    → IsMask size (clear (suc i) cs) (clear_to n (trailing_zeros 32 m))
unfolding clear_to
IsMask-clear_to size bs cs m n i h (em, lm) (en, ln) e =
    let lt = first-lt bs i e in
    let at : trailing_zeros 32 m ≡ i = rw em (trailing_zeros-bits 32 i bs (omega arith) e) in
    (
      rw (at, en, above_sound 32 i above_all (omega arith))
          (bit_and-high 32 (suc i) cs (omega arith) (omega arith)),
      length-clear (suc i) cs ∙ ln,
    )

-- Every vector of at most 32 bytes keeps the contract.
pub vector-IsVector : (size : ℕ) → 0 < size → size ≤ 32 → IsVector (vector size)
vector-IsVector size pos h = record {
  Represents = IsMask size;
  size_pos = pos;
  movemask_lem = λ chunk byte l.
      (unfold movemask in ap bits (lanes_eq byte chunk), length-map_eq byte chunk ∙ l);
  has_match_lem = λ bs m r. rw r.0 (bits-any bs);
  first_match_lem = λ bs m i r e. rw r.0 (trailing_zeros-bits 32 i bs (omega arith) e);
  clear_to_lem = λ bs cs m n i r r' e. IsMask-clear_to size bs cs m n i h r r' e;
}
