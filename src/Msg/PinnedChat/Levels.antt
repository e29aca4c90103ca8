-- ===== src/Msg/PinnedChat/Levels.antt =====
-- The names and the numbers of the levels of a pinned chat message.
use tmi_rs.Prelude.{
  ℕ, zero, suc, Bool-cases, inl, inr, ◌||◌, ◌+◌, List, [], ◌∷◌, none, some, ◌≡◌, ◌↔◌, refl, subst,
  arith, All, ltb, get_elem?,
}
use tmi_rs.Str.{Str, lookup, eq}
use tmi_rs.Str.Laws.{lookup-eq-some}
use tmi_rs.Msg.PinnedChat.{
  PinnedChatLevel, one, two, three, four, five, six, seven, eight, nine, ten, as_str, from_str,
  level_arms, variants, to_u8, try_from,
}

-- The names that the parser knows are the names that are printed.
arms_named : All (λ arm. as_str arm.1 ≡ arm.0) level_arms
unfolding as_str
arms_named = (refl, (refl, (refl, (refl, (refl, (refl, (refl, (refl, (refl, (refl, tt))))))))))

from_str-as_str : (l : PinnedChatLevel) → from_str (as_str l) ≡ some l
unfolding from_str as_str lookup eq
from_str-as_str one = refl
from_str-as_str two = refl
from_str-as_str three = refl
from_str-as_str four = refl
from_str-as_str five = refl
from_str-as_str six = refl
from_str-as_str seven = refl
from_str-as_str eight = refl
from_str-as_str nine = refl
from_str-as_str ten = refl

-- A text is read as a level exactly when it is the level's name.
pub from_str-as_str_iff : (s : Str) (l : PinnedChatLevel) → (from_str s ≡ some l) ↔ (as_str l ≡ s)
unfolding from_str
from_str-as_str_iff s l = (
  λ e. lookup-eq-some (λ name level. as_str level ≡ name) s level_arms arms_named e,
  λ e. subst (λ t. from_str t ≡ some l) e (from_str-as_str l),
)

try_from-to_u8 : (l : PinnedChatLevel) → try_from (to_u8 l) ≡ some l
unfolding try_from to_u8
try_from-to_u8 one = refl
try_from-to_u8 two = refl
try_from-to_u8 three = refl
try_from-to_u8 four = refl
try_from-to_u8 five = refl
try_from-to_u8 six = refl
try_from-to_u8 seven = refl
try_from-to_u8 eight = refl
try_from-to_u8 nine = refl
try_from-to_u8 ten = refl

-- The variants of the list have the numbers from `k` on.
abbrev Numbered : ℕ → List PinnedChatLevel → Type 0
Numbered k [] = Unit
Numbered k (l ∷ ls) = (to_u8 l ≡ k) × Numbered (suc k) ls

Numbered-get_elem? :
    (k i : ℕ) (ls : List PinnedChatLevel) (l : PinnedChatLevel)
    → Numbered k ls
    → get_elem? ls i ≡ some l
    → to_u8 l ≡ k + i
Numbered-get_elem? k i [] l h e = cc
Numbered-get_elem? k zero (m ∷ ls) l (h, hs) e =
    let same : m ≡ l = cc in omega (arith, subst (λ x. to_u8 x ≡ k) same h)
Numbered-get_elem? k (suc i) (m ∷ ls) l (h, hs) e =
    omega (arith, Numbered-get_elem? (suc k) i ls l hs e)

variants-Numbered : Numbered 0 variants
unfolding to_u8
variants-Numbered =
    (refl, (refl, (refl, (refl, (refl, (refl, (refl, (refl, (refl, (refl, tt))))))))))

-- The variant that has been found is in the range that is checked.
to_u8-try_from : (n : ℕ) (l : PinnedChatLevel) → try_from n ≡ some l → to_u8 l ≡ n
unfolding try_from
to_u8-try_from n l e = elim (Bool-cases (ltb n (to_u8 one) || ltb (to_u8 ten) n)) [
  | inl out ↦ let bad : none ≡ some l = rw out at e in cc
  | inr fits ↦ omega (arith, Numbered-get_elem? 0 n variants l variants-Numbered (rw fits at e))
]

-- A number is taken for a variant exactly when it is the variant's number, so no number is taken
-- for a value that is no variant.
pub try_from-to_u8_iff : (n : ℕ) (l : PinnedChatLevel) → (try_from n ≡ some l) ↔ (to_u8 l ≡ n)
try_from-to_u8_iff n l =
    (to_u8-try_from n l, λ e. subst (λ k. try_from k ≡ some l) e (try_from-to_u8 l))
