-- ===== src/Irc/Tags/Scalar.antt =====
-- irc/tags/scalar.rs: the tag parser that reads one byte after another.
use tmi_rs.Prelude.{
  ℕ, ◌+◌, List, [], ◌∷◌, Option, none, some, ◌==◌, if◌then◌else◌, Outcome, done, ◌>>=◌,
}
use tmi_rs.Str.{Str, codes, strip_prefix, slice_from}
use tmi_rs.Irc.Tags.{TagPair, push, State, in_key, in_value, tag_pair}

-- `b'='`
unfoldable pub at_equals : ℕ → State → State
at_equals offset (in_key key_start) = in_value key_start offset
at_equals offset (in_value key_start key_end) = in_value key_start key_end

-- The push of `b';'` and of `b' '`.
unfoldable pub flush : ℕ → State → List TagPair → Outcome (List TagPair)
flush offset (in_key key_start) tags = done tags
flush offset (in_value key_start key_end) tags = push tags (tag_pair key_start key_end offset)

-- The state behind `b';'`.
unfoldable pub at_semi : ℕ → State → State
at_semi offset (in_key key_start) = in_key key_start
at_semi offset (in_value key_start key_end) = in_key (offset + 1)

-- One round on a byte that is no space.
unfoldable pub step : ℕ → ℕ → State → List TagPair → Outcome (State × List TagPair)
unfolding at_equals flush at_semi
step c offset state tags =
    if c == b'='
    then done (at_equals offset state, tags)
    else if c == b';'
    then (do tags' ← flush offset state tags; done (at_semi offset state, tags'))
    else done (state, tags)

-- The loop from `offset` on, with the bytes that are left: where it ends, and the tags.
unfoldable pub loop : Str → ℕ → State → List TagPair → Outcome (ℕ × List TagPair)
unfolding step
loop [] offset state tags = done (offset, tags)
loop (c ∷ cs) offset state tags =
    if c == b' '
    then (do tags' ← flush offset state tags; done (offset, tags'))
    else (do (state', tags') ← step c offset state tags; loop cs (offset + 1) state' tags')

-- The rest of `parse`, on the text behind the `@`.
unfoldable pub parse_stripped : ℕ → Option Str → Outcome (Option (List TagPair) × ℕ)
parse_stripped pos none = done (none, pos)
parse_stripped pos (some src) = do
  (offset, tags) ← loop src 0 (in_key 0) []
  done (some tags, pos + (offset + 2))

unfoldable pub parse : Str → ℕ → Outcome (Option (List TagPair) × ℕ)
unfolding parse_stripped
parse src pos = do rest ← slice_from src pos; parse_stripped pos (strip_prefix (codes "@") rest)
