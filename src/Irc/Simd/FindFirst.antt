-- ===== src/Irc/Simd/FindFirst.antt =====
-- irc/tags/simd.rs: `find_first`, the search for a byte by vectors. `addr` is the address of the
-- data, on which the aligned loads depend.
pub mod Correct
use tmi_rs.Prelude.{
  ℕ, zero, suc, ◌+◌, ◌-◌, ◌*◌, ◌%◌, ◌<◌, ◌≤◌, Bool, true, false, List, [], ◌∷◌, Option, none, some,
  ltb, leb, ◌==◌, if◌then◌else◌, length, take, drop, Outcome, done, spinning, ◌>>=◌,
}
use tmi_rs.Str.{Str}
use tmi_rs.Irc.Wide.{Vector, mask_of, load_unaligned, load_aligned}

-- 1. The loop over small data, from index `i` on.
pub scan_small : Str → ℕ → ℕ → Option ℕ
scan_small [] byte i = none
scan_small (c ∷ data') byte i = if c == byte then some i else scan_small data' byte (i + 1)

-- What each step does with a chunk at `offset`: the index of its first match.
pub probe : Vector → List ℕ → ℕ → ℕ → Option ℕ
probe v chunk byte offset =
    let mask = mask_of v chunk byte in
    if v.has_match mask then some (offset + v.as_index (v.first_match mask)) else none

-- `return Some(..)` at a match, and otherwise what follows.
abbrev pub or_else : Option ℕ → Outcome (Option ℕ) → Outcome (Option ℕ)
or_else (some i) next = done (some i)
or_else none next = next

-- 5. The last, overlapping chunk.
pub last_chunk : Vector → Str → ℕ → ℕ → Outcome (Option ℕ)
last_chunk v data' byte offset =
    if ltb offset (length data')
    then (do
      let start = length data' - v.size
      chunk ← load_unaligned v data' start
      done (probe v chunk byte start))
    else done none

-- 4. The loop over single aligned chunks, and what follows it.
pub single_chunks : Vector → ℕ → ℕ → Str → ℕ → ℕ → Outcome (Option ℕ)
single_chunks v zero addr data' byte offset = spinning
single_chunks v (suc fuel) addr data' byte offset =
    let next = single_chunks v fuel addr data' byte (offset + v.size) in
    let round =
      load_aligned v addr data' offset >>= λ chunk. or_else (probe v chunk byte offset) next in
    if leb (offset + v.size) (length data') then round else last_chunk v data' byte offset

-- 3. The loop over four aligned chunks at a time, and what follows it.
pub unrolled_chunks : Vector → ℕ → ℕ → Str → ℕ → ℕ → Outcome (Option ℕ)
unrolled_chunks v zero addr data' byte offset = spinning
unrolled_chunks v (suc fuel) addr data' byte offset =
    let next = unrolled_chunks v fuel addr data' byte (offset + v.size * 4) in
    let round = load_aligned v addr data' (offset + v.size * 0) >>= λ chunk_0.
    load_aligned v addr data' (offset + v.size * 1) >>= λ chunk_1.
    load_aligned v addr data' (offset + v.size * 2) >>= λ chunk_2.
    load_aligned v addr data' (offset + v.size * 3) >>= λ chunk_3.
    let step_3 = or_else (probe v chunk_3 byte (offset + 3 * v.size)) next in
    let step_2 = or_else (probe v chunk_2 byte (offset + 2 * v.size)) step_3 in
    let step_1 = or_else (probe v chunk_1 byte (offset + 1 * v.size)) step_2 in
    or_else (probe v chunk_0 byte (offset + 0 * v.size)) step_1 in
    if ltb (offset + 4 * v.size) (length data')
    then round
    else single_chunks v (suc (length data')) addr data' byte offset

-- 2. The first chunk; then from the next aligned address on.
unfoldable pub find_first : Vector → ℕ → Str → ℕ → Outcome (Option ℕ)
unfolding scan_small probe last_chunk single_chunks unrolled_chunks
find_first v addr data' byte =
    if ltb (length data') v.size then done (scan_small data' byte 0) else (do
      chunk ← load_unaligned v data' 0
      let next =
          unrolled_chunks v (suc (length data')) addr data' byte
            (addr + v.size - addr % v.size - addr)
      or_else (probe v chunk byte 0) next)
