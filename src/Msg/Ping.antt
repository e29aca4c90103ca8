-- ===== src/Msg/Ping.antt =====
-- msg/ping.rs and msg/pong.rs: a ping and its answer.
use tmi_rs.Prelude.{Option}
use tmi_rs.Str.{Str}
use tmi_rs.Irc.Command as Commands
use tmi_rs.Irc.Message
use tmi_rs.Irc.Message.{IrcMessage}
use tmi_rs.Msg.Attempt.{Attempt, ◌>>=◌, ◌>>◌, ret, optional}
use tmi_rs.Msg.Fields.{expect}

pub record Ping : Type 0 where
  pub nonce : Option Str

pub record Pong : Type 0 where
  pub nonce : Option Str

-- `Ping::parse`
unfoldable pub parse_ping : IrcMessage → Attempt Ping
parse_ping m = do
  expect m Commands.ping
  nonce ← optional (Message.text_ref m)
  ret (record { nonce = nonce })

-- `Pong::parse`
unfoldable pub parse_pong : IrcMessage → Attempt Pong
parse_pong m = do
  expect m Commands.pong
  nonce ← optional (Message.text_ref m)
  ret (record { nonce = nonce })
