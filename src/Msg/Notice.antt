-- ===== src/Msg/Notice.antt =====
-- msg/notice.rs: a notice of the server.
use tmi_rs.Prelude.{Option}
use tmi_rs.Str.{Str}
use tmi_rs.Irc.Command as Commands
use tmi_rs.Irc.Tag as TagNames
use tmi_rs.Irc.Message
use tmi_rs.Irc.Message.{IrcMessage}
use tmi_rs.Msg.Attempt.{Attempt, ◌>>=◌, ◌>>◌, ret, optional}
use tmi_rs.Msg.Fields.{expect}

pub record Notice : Type 0 where
  pub channel : Option Str
  pub text : Str
  pub id : Option Str

unfoldable pub parse : IrcMessage → Attempt Notice
parse m = do
  expect m Commands.notice
  channel ← optional (Message.channel m)
  text ← Message.text_ref m
  id ← optional (Message.tag m TagNames.msg_id)
  ret (record { channel = channel; text = text; id = id })
