-- ===== src/Irc/Wide.antt =====
-- irc/wide.rs and irc/wide/: vectors of bytes, one back end for each instruction set. A vector is
-- the list of its lanes and a mask is its number. `Vector` holds what the back ends do
-- differently; the loads and the comparison are the same in all of them.
pub mod Bits
pub mod Lanes
pub mod X86
pub mod Neon
use tmi_rs.Prelude.{
  ℕ, zero, suc, ◌+◌, ◌-◌, ◌%◌, Bool, true, false, ◌&&◌, List, [], ◌∷◌, ◌++◌, Option, none, some,
  ◌≡◌, ◌<◌, leb, ◌==◌, if◌then◌else◌, length, take, drop, replicate, map, map?, Outcome, done,
  panicked,
}
use tmi_rs.Str.{Str}

pub record Vector : Type 0 where
  pub size : ℕ
  pub movemask : List ℕ → ℕ
  pub has_match : ℕ → Bool
  pub first_match : ℕ → ℕ
  pub as_index : ℕ → ℕ
  pub clear_to : ℕ → ℕ → ℕ

-- The lane of `a.eq(byte)`: all ones or all zeros.
abbrev pub lane_eq : ℕ → ℕ → ℕ
lane_eq byte c = if c == byte then 255 else 0

-- `Vector::eq`
unfoldable pub eq : List ℕ → ℕ → List ℕ
eq chunk byte = map (lane_eq byte) chunk

-- The mask of a comparison, `chunk.eq(byte).movemask()`.
abbrev pub mask_of : Vector → List ℕ → ℕ → ℕ
mask_of v chunk byte = v.movemask (eq chunk byte)

-- `Vector::load_unaligned`; the assertion is that the whole vector lies in the data.
unfoldable pub load_unaligned : Vector → Str → ℕ → Outcome (List ℕ)
load_unaligned v data' offset =
    if leb v.size (length (drop offset data'))
    then done (take v.size (drop offset data'))
    else panicked

-- `Vector::load_aligned`, with the address of the data.
unfoldable pub load_aligned : Vector → ℕ → Str → ℕ → Outcome (List ℕ)
load_aligned v addr data' offset =
    if leb v.size (length (drop offset data')) && (addr + offset) % v.size == 0
    then done (take v.size (drop offset data'))
    else panicked

-- `Vector::load_unaligned_remainder`: what is left of the data, and zeros behind it.
unfoldable pub load_unaligned_remainder : Vector → Str → ℕ → Outcome (List ℕ)
load_unaligned_remainder v data' offset =
    if leb (length data' - offset) v.size
    then done (drop offset data' ++ replicate (v.size - (length data' - offset)) 0)
    else panicked

-- The first lane that is set.
abbrev pub first : List Bool → Option ℕ
first [] = none
first (b ∷ bs) = if b then some 0 else map? (first bs) (λ i. suc i)

abbrev pub any : List Bool → Bool
any [] = false
any (b ∷ bs) = if b then true else any bs

-- The lanes with the first `n` cleared.
abbrev pub clear : ℕ → List Bool → List Bool
clear zero bs = bs
clear (suc n) [] = []
clear (suc n) (b ∷ bs) = false ∷ clear n bs

-- What a client relies on: a mask stands for the lanes that are set.
pub record IsVector (v : Vector) : Type 1 where
  pub Represents : List Bool → ℕ → Type 0
  pub size_pos : 0 < v.size
  pub movemask_lem :
      (chunk : List ℕ) (byte : ℕ)
      → length chunk ≡ v.size
      → Represents (map (λ c. c == byte) chunk) (v.movemask (eq chunk byte))
  pub has_match_lem : (bs : List Bool) (m : ℕ) → Represents bs m → v.has_match m ≡ any bs
  pub first_match_lem :
      (bs : List Bool) (m i : ℕ)
      → Represents bs m
      → first bs ≡ some i
      → v.as_index (v.first_match m) ≡ i
  pub clear_to_lem :
      (bs cs : List Bool) (m n i : ℕ)
      → Represents bs m
      → Represents cs n
      → first bs ≡ some i
      → Represents (clear (suc i) cs) (v.clear_to n (v.first_match m))
