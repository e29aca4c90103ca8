-- ===== src/Irc/Tags.antt =====
-- irc/tags.rs: the positions of a tag's key and value, and the array of at most 128 of them.
-- Each parser gives the tags in order.
pub mod Scalar
pub mod TooMany
pub mod Written
pub mod RoundTrip
pub mod Cut
pub mod Bounds
pub mod Total
use tmi_rs.Prelude.{
  ℕ, ◌+◌, ◌-◌, ◌%◌, ◌^◌, List, [], ◌∷◌, ◌++◌, ltb, if◌then◌else◌, length, Outcome, done, panicked,
  ◌>>=◌,
}
use tmi_rs.Str.{Str}
use tmi_rs.Irc.Span.{Span, index}

pub record TagPair : Type 0 where
  pub key_start : ℕ
  pub key_end : ℕ
  pub value_end : ℕ

-- The sums are in `u32`.
unfoldable pub key : TagPair → Span
key p = record { start = p.key_start; end = (p.key_start + p.key_end) % 2 ^ 32 }

unfoldable pub value : TagPair → Span
value p =
    let start = ((p.key_start + p.key_end) % 2 ^ 32 + 1) % 2 ^ 32 in
    record { start = start; end = (start + p.value_end) % 2 ^ 32 }

-- `TagPair::get`
unfoldable pub get : Str → TagPair → Outcome (Str × Str)
get src p = do k ← index src (key p); v ← index src (value p); done (k, v)

-- `Array::<128, TagPair>::push`: a write behind the end panics.
abbrev pub capacity : ℕ
capacity = 128

unfoldable pub push : List TagPair → TagPair → Outcome (List TagPair)
push tags pair = if ltb (length tags) capacity then done (tags ++ pair ∷ []) else panicked

-- `State` of both parsers.
pub data State : Type 0 where
  in_key : ℕ → State
  in_value : ℕ → ℕ → State

-- The pair whose key is `key_start..key_end` and whose value ends at `pos`, with its casts.
abbrev pub tag_pair : ℕ → ℕ → ℕ → TagPair
tag_pair key_start key_end pos = record {
  key_start = (key_start % 2 ^ 32 + 1) % 2 ^ 32;
  key_end = (key_end - key_start) % 2 ^ 16;
  value_end = (pos - (key_end + 1)) % 2 ^ 16;
}

-- The pairs of `IrcMessage::tags`, in order.
unfoldable pub collect : Str → List TagPair → Outcome (List (Str × Str))
collect src [] = done []
collect src (pair ∷ pairs) = do kv ← get src pair; rest ← collect src pairs; done (kv ∷ rest)
