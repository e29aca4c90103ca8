-- ===== src/Irc/Simd.antt =====
-- irc/tags/simd.rs: the tag parser that reads a vector of bytes at a time, over any vector.
pub mod FindFirst
pub mod Chunk
pub mod Agreement
use tmi_rs.Prelude.{
  ℕ, zero, suc, ◌+◌, ◌-◌, List, [], ◌∷◌, Option, none, some, ltb, if◌then◌else◌, length, take,
  Outcome, done, spinning, ◌>>=◌,
}
use tmi_rs.Str.{Str, codes, strip_prefix, slice_from}
use tmi_rs.Irc.Wide.{Vector, mask_of, load_unaligned, load_unaligned_remainder}
use tmi_rs.Irc.Tags.{TagPair, push, State, in_key, in_value, tag_pair}
use tmi_rs.Irc.Tags.Scalar.{flush}
use FindFirst.{find_first}
use Chunk.{parse_chunk}

-- The loop over whole chunks, while more than one is left.
pub chunks : Vector → ℕ → Str → ℕ → State → List TagPair → Outcome (ℕ × State × List TagPair)
chunks v zero remainder offset state tags = spinning
chunks v (suc fuel) remainder offset state tags =
    let round = load_unaligned v remainder offset >>= λ chunk.
    parse_chunk v offset chunk state tags >>= λ (state', tags').
    chunks v fuel remainder (offset + v.size) state' tags' in
    if ltb (offset + v.size) (length remainder) then round else done (offset, state, tags)

-- The last chunk, and the value that the end of the tags ends.
pub last_tags : Vector → Str → ℕ → State → List TagPair → Outcome (List TagPair)
last_tags v remainder offset state tags =
    if ltb 0 (length remainder - offset)
    then (do
      chunk ← load_unaligned_remainder v remainder offset
      (state', tags') ← parse_chunk v offset chunk state tags
      flush (length remainder) state' tags')
    else done tags

-- The rest of `parse`, once the space that ends the tags is found.
pub parse_until : Vector → ℕ → Str → Option ℕ → Outcome (Option (List TagPair) × ℕ)
parse_until v pos src none = done (none, pos)
parse_until v pos src (some end) = do
  let remainder = take end src
  (offset, state, tags) ← chunks v (suc (length remainder)) remainder 0 (in_key 0) []
  tags' ← last_tags v remainder offset state tags
  done (some tags', pos + (end + 2))

pub parse_stripped : Vector → ℕ → ℕ → Option Str → Outcome (Option (List TagPair) × ℕ)
parse_stripped v addr pos none = done (none, pos)
parse_stripped v addr pos (some src) = do
  end ← find_first v addr src b' '
  parse_until v pos src end

-- `parse`; `addr` is the address of the text behind the `@`.
unfoldable pub parse : Vector → ℕ → Str → ℕ → Outcome (Option (List TagPair) × ℕ)
unfolding parse_stripped
parse v addr src pos = do
  rest ← slice_from src pos
  parse_stripped v addr pos (strip_prefix (codes "@") rest)
