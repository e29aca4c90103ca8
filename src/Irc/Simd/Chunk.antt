-- ===== src/Irc/Simd/Chunk.antt =====
-- irc/tags/simd.rs: `parse_chunk`, the state machine over the masks of one chunk.
pub mod Correct
use tmi_rs.Prelude.{ℕ, zero, suc, ◌+◌, List, [], ◌∷◌, if◌then◌else◌, Outcome, done, spinning, ◌>>=◌}
use tmi_rs.Irc.Wide.{Vector, mask_of}
use tmi_rs.Irc.Tags.{TagPair, push, State, in_key, in_value, tag_pair}

-- The `loop` of `parse_chunk`. Each round but the last clears a lane of a mask.
pub chunk_loop : Vector → ℕ → ℕ → State → ℕ → ℕ → List TagPair → Outcome (State × List TagPair)
chunk_loop v zero offset state vector_eq vector_semi tags = spinning
chunk_loop v (suc fuel) offset (in_key key_start) vector_eq vector_semi tags =
    let m = v.first_match vector_eq in
    let pos = offset + v.as_index m in
    let next =
      chunk_loop v fuel offset (in_value key_start pos) (v.clear_to vector_eq m)
        (v.clear_to vector_semi m) tags in
    if v.has_match vector_eq then next else done (in_key key_start, tags)
chunk_loop v (suc fuel) offset (in_value key_start key_end) vector_eq vector_semi tags =
    let m = v.first_match vector_semi in
    let pos = offset + v.as_index m in
    let next = push tags (tag_pair key_start key_end pos) >>= λ tags'.
    chunk_loop v fuel offset (in_key (pos + 1)) (v.clear_to vector_eq m) (v.clear_to vector_semi m)
      tags' in
    if v.has_match vector_semi then next else done (in_value key_start key_end, tags)

unfoldable pub parse_chunk :
    Vector → ℕ → List ℕ → State → List TagPair → Outcome (State × List TagPair)
unfolding chunk_loop
parse_chunk v offset chunk state tags =
    chunk_loop v (suc v.size) offset state (mask_of v chunk b'=') (mask_of v chunk b';') tags
