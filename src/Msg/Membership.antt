-- ===== src/Msg/Membership.antt =====
-- msg/join.rs and msg/part.rs: a user joins or leaves a channel.
use tmi_rs.Str.{Str}
use tmi_rs.Irc.Command as Commands
use tmi_rs.Irc.Message
use tmi_rs.Irc.Message.{IrcMessage}
use tmi_rs.Msg.Attempt.{Attempt, ◌>>=◌, ◌>>◌, ret}
use tmi_rs.Msg.Fields.{expect, nick}

pub record Join : Type 0 where
  pub channel : Str
  pub user : Str

pub record Part : Type 0 where
  pub channel : Str
  pub user : Str

-- `Join::parse`
unfoldable pub parse_join : IrcMessage → Attempt Join
parse_join m = do
  expect m Commands.join
  channel ← Message.channel m
  user ← nick m
  ret (record { channel = channel; user = user })

-- `Part::parse`
unfoldable pub parse_part : IrcMessage → Attempt Part
parse_part m = do
  expect m Commands.part
  channel ← Message.channel m
  user ← nick m
  ret (record { channel = channel; user = user })
