-- ===== src/Irc/Message/Bounds.antt =====
-- The invariant of a parsed message: each of its spans can be cut out of the line.
pub mod Parsed
pub mod Accessors
use tmi_rs.Prelude.{ℕ, ◌≡◌, List, All, IfSome, Option, none, some, Outcome, done}
use tmi_rs.Str.{Str}
use tmi_rs.Str.Boundary.{IsText}
use tmi_rs.Irc.Span.Inside.{Inside}
use tmi_rs.Irc.Prefix.Bounds.{PrefixInside}
use tmi_rs.Irc.Command.Bounds.{CommandInside}
use tmi_rs.Irc.Tags.Bounds.{PairInside}
use tmi_rs.Irc.Message.{IrcMessage}

pub record WellFormed (m : IrcMessage) : Type 0 where
  pub text : IsText m.src
  pub tags : All (PairInside m.src) m.parts.tags
  pub prefix : IfSome (PrefixInside m.src) m.parts.prefix
  pub command : CommandInside m.src m.parts.command
  pub channel : IfSome (Inside m.src) m.parts.channel
  pub params : IfSome (Inside m.src) m.parts.params
