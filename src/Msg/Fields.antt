-- ===== src/Msg/Fields.antt =====
-- msg.rs: the parts that several messages share. `Time` stands for chrono's `DateTime<Utc>`, and
-- `timestamp_millis` for its `timestamp_millis_opt(..).single()`.
pub mod Laws
pub mod Ends
use tmi_rs.Prelude.{
  ℕ, Bool, true, false, not, List, [], ◌∷◌, Option, none, some, bind?, map?, ltb, if◌then◌else◌,
  Outcome, done,
}
use tmi_rs.Prelude.Int.{ℤ}
use tmi_rs.Str.{Str, codes, strip_prefix}
use tmi_rs.Str.Split.{split, strip_last}
use tmi_rs.Str.Numbers.{parse_u8, parse_u64, parse_i64}
use tmi_rs.Irc.Command as Commands
use tmi_rs.Irc.Command.{Command}
use tmi_rs.Irc.Prefix.{Prefix}
use tmi_rs.Irc.Tag as TagNames
use tmi_rs.Irc.Tag.{Tag}
use tmi_rs.Irc.Message
use tmi_rs.Irc.Message.{IrcMessage}
use tmi_rs.Msg.Attempt.{Attempt, ◌>>=◌, ◌>>◌, ret, optional, require, lift}
use tmi_rs.Msg.Badge.{Badge, parse_badges, unwrap_or}

pub record User : Type 0 where
  pub id : Str
  pub login : Str
  pub name : Str

-- `if message.command() != expected { return None; }`
unfoldable pub expect : IrcMessage → Command → Attempt (Unit {0})
expect m expected = do c ← lift (Message.command m); require (Commands.eq c expected)

-- `.filter(is_not_empty)`
unfoldable pub not_empty : Option Str → Option Str
not_empty none = none
not_empty (some []) = none
not_empty (some (c ∷ s)) = some (c ∷ s)

unfoldable pub positive : ℕ → Bool
positive n = ltb 0 n

unfoldable pub parse_bool : Str → Bool
unfolding positive
parse_bool v = unwrap_or false (map? (parse_u8 v) positive)

-- A duration is its seconds.
unfoldable pub parse_duration : Str → Option ℕ
parse_duration s = parse_u64 s

unfoldable pub parse_timestamp : {Time : Type 0} → (ℤ → Option Time) → Str → Option Time
parse_timestamp timestamp_millis s = bind? (parse_i64 s) timestamp_millis

abbrev pub start_of_heading : ℕ
start_of_heading = 1

abbrev pub action_prefix : Str
action_prefix = start_of_heading ∷ codes "ACTION "

pub without_suffix : Str → Option Str → Str × Bool
without_suffix input none = (input, false)
without_suffix input (some s) = (s, true)

pub without_prefix : Str → Option Str → Str × Bool
unfolding without_suffix
without_prefix input none = (input, false)
without_prefix input (some s) = without_suffix input (strip_last start_of_heading s)

unfoldable pub parse_message_text : Str → Str × Bool
unfolding without_prefix
parse_message_text input = without_prefix input (strip_prefix action_prefix input)

-- `split_comma`
abbrev pub split_comma : Str → List Str
split_comma = split b','

-- `.prefix().and_then(|prefix| prefix.nick)?`
unfoldable pub nick : IrcMessage → Attempt Str
nick m = do p ← Message.prefix m; done p.nick

-- `.zip(..).map(parse_badges).unwrap_or_default()`
unfoldable pub zip_badges : Option Str → Option Str → List Badge
zip_badges (some badges) (some badge_info) = parse_badges badges badge_info
zip_badges _ _ = []

unfoldable pub badges_of : IrcMessage → Attempt (List Badge)
unfolding zip_badges
badges_of m = do
  badges ← optional (Message.tag m TagNames.badges)
  badge_info ← optional (Message.tag m TagNames.badge_info)
  ret (zip_badges badges badge_info)

unfoldable pub color_of : IrcMessage → Attempt (Option Str)
unfolding not_empty
color_of m = do color ← optional (Message.tag m TagNames.color); ret (not_empty color)

unfoldable pub emotes_of : IrcMessage → Attempt Str
emotes_of m = do emotes ← optional (Message.tag m TagNames.emotes); ret (unwrap_or [] emotes)

-- `.tag(Tag::EmoteSets).map(split_comma)…unwrap_or_default()`
unfoldable pub emote_sets_of : IrcMessage → Attempt (List Str)
emote_sets_of m = do
  sets ← optional (Message.tag m TagNames.emote_sets)
  ret (unwrap_or [] (map? sets split_comma))

-- `parse_timestamp(message.tag(Tag::TmiSentTs)?)?`
unfoldable pub timestamp_of : {Time : Type 0} → (ℤ → Option Time) → IrcMessage → Attempt Time
timestamp_of timestamp_millis m = do
  s ← Message.tag m TagNames.tmi_sent_ts
  done (parse_timestamp timestamp_millis s)

-- `message.tag(tag).and_then(|v| v.parse().ok())?`
abbrev pub number_of {ℓ} : {A : Type ℓ} → (Str → Option A) → IrcMessage → Tag → Attempt A
number_of parse m t = do v ← Message.tag m t; done (parse v)
