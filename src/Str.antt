-- ===== src/Str.antt =====
-- Rust's `str` as the list of its UTF-8 bytes, with the methods that the library calls.
-- A slice whose ends are out of range, or no character boundary, panics.
pub mod Laws
pub mod Words
pub mod Search
pub mod Boundary
pub mod Split
pub mod Numbers
use Prim.Native.Char.{code}
use tmi_rs.Prelude.{
  ℕ, zero, suc, ◌+◌, ◌-◌, String, Bool, true, false, not, ◌&&◌, List, [], ◌∷◌, ◌++◌, Option, none,
  some, ◌≡◌, ◌≢◌, ltb, leb, ◌==◌, if◌then◌else◌, length, get_elem?, take, drop, All, Outcome, done,
  panicked, map?,
}

abbrev pub Str : Type 0
Str = List ℕ

-- The bytes of an ASCII literal.
abbrev pub codes : String → Str
codes String.[] = []
codes (String.◌∷◌ c s) = code c ∷ codes s

-- A byte that continues a character, `(b as i8) < -0x40`.
abbrev pub is_continuation : ℕ → Bool
is_continuation b = leb 128 b && ltb b 192

-- `str::is_char_boundary`
unfoldable pub is_char_boundary : Str → ℕ → Bool
is_char_boundary s zero = true
is_char_boundary [] (suc i) = false
is_char_boundary (c ∷ s) (suc zero) = elim s [ [] ↦ true | d ∷ _ ↦ not (is_continuation d) ]
is_char_boundary (c ∷ s) (suc (suc i)) = is_char_boundary s (suc i)

-- `&s[a..]`
unfoldable pub slice_from : Str → ℕ → Outcome Str
slice_from s a = if is_char_boundary s a then done (drop a s) else panicked

-- `&s[a..b]`
unfoldable pub slice : Str → ℕ → ℕ → Outcome Str
slice s a b =
    if leb a b && (is_char_boundary s a && is_char_boundary s b)
    then done (take (b - a) (drop a s))
    else panicked

-- `s.find(c)` for an ASCII character `c`: the index of its first byte.
unfoldable pub find : Str → ℕ → Option ℕ
find [] c = none
find (d ∷ s) c = if d == c then some 0 else map? (find s c) (λ i. suc i)

-- `s == t`
unfoldable pub eq : Str → Str → Bool
eq [] [] = true
eq (x ∷ s) (y ∷ t) = x == y && eq s t
eq _ _ = false

unfoldable pub strip_prefix : Str → Str → Option Str
strip_prefix [] s = some s
strip_prefix (p ∷ ps) [] = none
strip_prefix (p ∷ ps) (c ∷ s) = if p == c then strip_prefix ps s else none

unfoldable pub starts_with : Str → Str → Bool
starts_with [] s = true
starts_with (p ∷ ps) [] = false
starts_with (p ∷ ps) (c ∷ s) = p == c && starts_with ps s

-- No byte of the text is `b`.
abbrev pub Lacks : ℕ → Str → Type 0
Lacks b = All (λ c. c ≢ b)

-- The text does not begin in the middle of a character.
abbrev pub StartsChar : Str → Type 0
StartsChar [] = Unit
StartsChar (c ∷ _) = is_continuation c ≡ false

-- A match on literals, as the list of its arms: the first arm with this text.
module _ {ℓ} {A : Type ℓ} where
  unfoldable pub lookup : Str → List (Str × A) → Option A
  unfolding eq
  lookup s [] = none
  lookup s ((key, a) ∷ arms) = if eq s key then some a else lookup s arms
