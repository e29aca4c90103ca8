-- ===== src/Irc/Message/TooMany.antt =====
-- The line parser on more tags than there is room for.
use tmi_rs.Prelude.{ℕ, ◌<◌, List, ◌∷◌, ◌++◌, none, ◌≡◌, ◌≢◌, refl, ◌∙◌, length, All, done, panicked}
use tmi_rs.Str.{Str, find, slice_from, is_char_boundary}
use tmi_rs.Str.Laws.{find-mem}
use tmi_rs.Irc.Tags.{capacity}
use tmi_rs.Irc.Tags.RoundTrip.{render, IsPair, line}
use tmi_rs.Irc.Tags.TooMany.{parse_many}
use tmi_rs.Irc.Wide.{Vector, IsVector}
use tmi_rs.Irc.Simd
use tmi_rs.Irc.Simd.Agreement.{parse_scalar}
use tmi_rs.Irc.Message.{parse}

pub space_follows :
    (kvs : List (Str × Str)) (t s : Str)
    → slice_from (line kvs t) 0 ≡ done (b'@' ∷ s)
    → find s b' ' ≢ none
unfolding slice_from is_char_boundary
space_follows kvs t s e none_found =
    let same : render kvs ++ b' ' ∷ t ≡ s = cc in find-mem (render kvs) t b' ' (rw same none_found)

-- A line with more than 128 written tags makes the line parser panic, whatever follows the tags,
-- with every vector that keeps the contract and at every address. A key holds no `=` or space, a
-- value no `;` or space, each begins no character in its middle and is shorter than 2 ^ 16.
pub parse_many_tags :
    (v : Vector)
    → IsVector v
    → (addr : ℕ) (kvs : List (Str × Str)) (t : Str) → All IsPair kvs
    → capacity < length kvs
    → parse (Simd.parse v addr) (line kvs t) ≡ panicked
unfolding parse
parse_many_tags v law addr kvs t ok many =
    let panics =
      parse_scalar v law addr (line kvs t) 0 (λ s e none_found. space_follows kvs t s e none_found)
      ∙ parse_many kvs t ok many in
    rw panics refl
