-- ===== src/Irc/Message/Whole.antt =====
-- A whole line of which every part but the command may be missing, and what the parsed message says
-- of the parts.
pub mod Pieces
pub mod Parsed
use tmi_rs.Prelude.{
  ℕ, ◌^◌, ◌<◌, ◌≤◌, List, Option, [], ◌∷◌, ◌++◌, none, some, map?, IfSome, ◌≡◌, ◌≢◌, length, All,
  done,
}
use tmi_rs.Str.{Str, codes, Lacks, StartsChar}
use tmi_rs.Irc.Command as Commands
use tmi_rs.Irc.Command.{Command}
use tmi_rs.Irc.Command.Known.{IsKnown}
use tmi_rs.Irc.Channel.Tail.{FirstNot, tail, IsTail}
use tmi_rs.Irc.Prefix as Prefixes
use tmi_rs.Irc.Prefix.{Prefix}
use tmi_rs.Irc.Prefix.RoundTrip.{AreParts, IsPart}
use tmi_rs.Irc.Tags.RoundTrip.{IsPair, render}
use tmi_rs.Irc.Message.{IrcMessage, or_empty, tags, prefix, command, params, channel}

pub record Whole : Type 0 where
  pub tags : Option (List (Str × Str))
  pub prefix : Option Prefix
  pub command : Str
  pub channel : Option Str
  pub params : Option Str

-- The tags and the prefix, in front of the rest of a line.
abbrev pub tagged : Option (List (Str × Str)) → Str → Str
tagged none rest = rest
tagged (some kvs) rest = b'@' ∷ (render kvs ++ b' ' ∷ rest)

abbrev pub prefixed : Option Prefix → Str → Str
prefixed none rest = rest
prefixed (some p) rest = b':' ∷ (Prefixes.display p ++ b' ' ∷ rest)

-- `@tags :prefix COMMAND #channel params`
abbrev pub line : Whole → Str
line w = tagged w.tags (prefixed w.prefix (w.command ++ tail w.channel w.params))

-- The command does not begin like the parts that are missing in front of it.
abbrev pub IsBehind : Option (List (Str × Str)) → Option Prefix → Str → Type 0
IsBehind tags (some p) word = Unit
IsBehind (some kvs) none word = FirstNot b':' word
IsBehind none none word = FirstNot b'@' word × FirstNot b':' word

abbrev pub IsPrefix : Prefix → Type 0
IsPrefix p = AreParts p.nick p.user × IsPart p.host

-- The bounds and the separators: there are at most 128 tags, whose keys hold no `=` and no space
-- and whose values hold no `;` and no space, each shorter than 2 ^ 16 bytes; the parts of a prefix
-- hold no space, `@` or `!`, and a user stands only beside a nick; the command is not empty, holds
-- no space, is not 353 or 366, whose channel stands in the params, and does not begin with `:`
-- where the prefix is missing, nor with `@` where the tags are missing too; the channel holds no
-- space; the params are not empty and do not begin with `#` where the channel is missing; no part
-- begins in the middle of a character; and the line is shorter than 2 ^ 32 bytes.
pub record IsWhole (w : Whole) : Type 0 where
  pub pairs : All IsPair (or_empty w.tags)
  pub few : length (or_empty w.tags) ≤ 128
  pub source : IfSome IsPrefix w.prefix
  pub word : Lacks b' ' w.command
  pub word_ne_nil : w.command ≢ []
  pub word_starts : StartsChar w.command
  pub behind : IsBehind w.tags w.prefix w.command
  pub not_names : w.command ≢ codes "353"
  pub not_end_of_names : w.command ≢ codes "366"
  pub ends : IsTail w.channel w.params
  pub fits : length (line w) < 2 ^ 32

-- What a parsed message says of the parts.
pub record SaysWhole (m : IrcMessage) (w : Whole) : Type 0 where
  pub tags_lem : tags m ≡ done (or_empty w.tags)
  pub prefix_lem : prefix m ≡ done w.prefix
  pub command_lem :
      (c : Command) × (command m ≡ done c)
      × (Commands.as_str c ≡ w.command)
      × ((d : Command) → IsKnown d → Commands.as_str d ≡ w.command → c ≡ d)
  pub channel_lem : channel m ≡ done (map? w.channel (λ c. b'#' ∷ c))
  pub params_lem : params m ≡ done w.params
