-- ===== src/Irc/Message.antt =====
-- irc.rs: the parser of a line, and what a parsed line is asked for. `IrcMessageRef` borrows the
-- line and `IrcMessage` owns it; their fields are the same. The tag parser, which the feature
-- `simd` chooses, is an argument.
pub mod Whole
pub mod Line
pub mod Bounds
pub mod Total
pub mod Lookup
pub mod Unterminated
pub mod TooMany
use tmi_rs.Prelude.{ℕ, ◌+◌, List, [], ◌∷◌, Option, none, some, if◌then◌else◌, Outcome, done, ◌>>=◌}
use tmi_rs.Str.{Str, find, eq, slice_from}
use tmi_rs.Str.Words.{nth_word}
use tmi_rs.Irc.Span.{Span, index}
use tmi_rs.Irc.Command as Commands
use tmi_rs.Irc.Command.{Command, RawCommand}
use tmi_rs.Irc.Prefix as Prefixes
use tmi_rs.Irc.Prefix.{Prefix, RawPrefix}
use tmi_rs.Irc.Channel
use tmi_rs.Irc.Tag as TagNames
use tmi_rs.Irc.Tag.{Tag}
use tmi_rs.Irc.Tags
use tmi_rs.Irc.Tags.{TagPair}

-- `IrcMessageParts`
pub record Parts : Type 0 where
  pub tags : List TagPair
  pub prefix : Option RawPrefix
  pub command : RawCommand
  pub channel : Option Span
  pub params : Option Span

pub record IrcMessage : Type 0 where
  pub src : Str
  pub parts : Parts

-- The signature of `tags::parse`.
abbrev pub TagParser : Type 0
TagParser = Str → ℕ → Outcome (Option (List TagPair) × ℕ)

-- `unwrap_or_default`
abbrev pub or_empty {ℓ} : {A : Type ℓ} → Option (List A) → List A
or_empty none = []
or_empty (some xs) = xs

-- What follows the command, once it is known.
pub parse_rest :
    Str → List TagPair → Option RawPrefix → Option RawCommand → ℕ → Outcome (Option IrcMessage)
parse_rest src tags prefix none pos = done none
parse_rest src tags prefix (some command) pos = do
  (channel, pos) ← Channel.parse src pos
  params ← Channel.parse_params src pos
  done (
      some (record {
        src = src;
        parts = record {
          tags = tags;
          prefix = prefix;
          command = command;
          channel = channel;
          params = params;
        };
      }))

-- `IrcMessageRef::parse_inner`
unfoldable pub parse : TagParser → Str → Outcome (Option IrcMessage)
unfolding parse_rest
parse parse_tags src = do
  (tags, pos) ← parse_tags src 0
  (prefix, pos) ← Prefixes.parse src pos
  (command, pos) ← Commands.parse src pos
  parse_rest src (or_empty tags) prefix command pos

-- `IrcMessage::prefix`
pub prefix_of : Str → Option RawPrefix → Outcome (Option Prefix)
prefix_of src none = done none
prefix_of src (some raw) = do p ← Prefixes.get raw src; done (some p)

unfoldable pub prefix : IrcMessage → Outcome (Option Prefix)
unfolding prefix_of
prefix m = prefix_of m.src m.parts.prefix

unfoldable pub command : IrcMessage → Outcome Command
command m = Commands.get m.parts.command m.src

unfoldable pub params : IrcMessage → Outcome (Option Str)
params m = Prefixes.index_option m.src m.parts.params

-- `params.and_then(|params| params.split_whitespace().nth(n))`
pub nth_param : ℕ → Option Str → Option Str
nth_param n none = none
nth_param n (some params) = nth_word params n

-- The match in `channel`.
unfoldable pub channel_for : IrcMessage → Command → Outcome (Option Str)
unfolding nth_param
channel_for m Command.rpl_names = do p ← params m; done (nth_param 2 p)
channel_for m Command.rpl_end_of_names = do p ← params m; done (nth_param 1 p)
channel_for m _ = Prefixes.index_option m.src m.parts.channel

unfoldable pub channel : IrcMessage → Outcome (Option Str)
channel m = do c ← command m; channel_for m c

-- `tags.iter().find(..).map(..)`
pub find_tag : Str → List TagPair → Str → Outcome (Option Str)
find_tag src [] key = done none
find_tag src (pair ∷ pairs) key = do
  k ← index src (Tags.key pair)
  if eq k key then (do v ← index src (Tags.value pair); done (some v)) else find_tag src pairs key

-- `IrcMessage::tag`
unfoldable pub tag : IrcMessage → Tag → Outcome (Option Str)
unfolding find_tag
tag m t = find_tag m.src m.parts.tags (TagNames.as_str t)

-- `IrcMessage::tags`
unfoldable pub tags : IrcMessage → Outcome (List (Str × Str))
tags m = Tags.collect m.src m.parts.tags

-- What stands behind the colon at `start`, or `absent` where there is none.
after_colon : Str → Option Str → Option ℕ → Outcome (Option Str)
after_colon params absent none = done absent
after_colon params absent (some start) = do s ← slice_from params (start + 1); done (some s)

-- `IrcMessageRef::text`: with no `:`, all of the params.
text_of_ref : Option Str → Outcome (Option Str)
unfolding after_colon
text_of_ref none = done none
text_of_ref (some params) = after_colon params (some params) (find params b':')

unfoldable pub text_ref : IrcMessage → Outcome (Option Str)
unfolding text_of_ref
text_ref m = do p ← params m; text_of_ref p

-- `IrcMessage::text`: with no `:`, nothing.
text_of_owned : Option Str → Outcome (Option Str)
unfolding after_colon
text_of_owned none = done none
text_of_owned (some params) = after_colon params none (find params b':')

unfoldable pub text_owned : IrcMessage → Outcome (Option Str)
unfolding text_of_owned
text_owned m = do p ← params m; text_of_owned p
