-- ===== src/Irc/Channel.antt =====
-- irc/channel.rs and irc/params.rs: the channel of a message, and what follows it.
pub mod Spans
pub mod Tail
pub mod Bounds
pub mod Total
use tmi_rs.Prelude.{
  ℕ, ◌+◌, [], ◌∷◌, Option, none, some, if◌then◌else◌, length, Outcome, done, ◌>>=◌,
}
use tmi_rs.Str.{Str, codes, find, starts_with, slice_from}
use tmi_rs.Irc.Span.{Span, from}

pub channel_span : Str → ℕ → Option ℕ → Option Span × ℕ
channel_span src start (some e) = let end = start + e in (some (from start end), end + 1)
channel_span src start none = let end = length src in (some (from start end), end)

-- `channel::parse`: `#channel <rest>`
unfoldable pub parse : Str → ℕ → Outcome (Option Span × ℕ)
unfolding channel_span
parse src pos = do
  rest ← slice_from src pos
  if starts_with (codes "#") rest
      then (do tail ← slice_from src pos; done (channel_span src pos (find tail b' ')))
      else done (none, pos)

pub params_span : Str → ℕ → Str → Option Span
params_span src pos [] = none
params_span src pos (c ∷ cs) = some (from pos (length src))

-- `params::parse`
unfoldable pub parse_params : Str → ℕ → Outcome (Option Span)
unfolding params_span
parse_params src pos = do rest ← slice_from src pos; done (params_span src pos rest)
