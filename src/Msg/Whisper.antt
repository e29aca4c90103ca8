-- ===== src/Msg/Whisper.antt =====
-- msg/whisper.rs: a message from one user to another.
use tmi_rs.Prelude.{List, Option, done}
use tmi_rs.Str.{Str, codes}
use tmi_rs.Str.Split.{split_once_at}
use tmi_rs.Irc.Command as Commands
use tmi_rs.Irc.Tag as TagNames
use tmi_rs.Irc.Message
use tmi_rs.Irc.Message.{IrcMessage}
use tmi_rs.Msg.Attempt.{Attempt, ◌>>=◌, ◌>>◌, ret}
use tmi_rs.Msg.Badge.{Badge}
use tmi_rs.Msg.Fields.{User, expect, nick, badges_of, color_of, emotes_of}

pub record Whisper : Type 0 where
  pub recipient : Str
  pub sender : User
  pub text : Str
  pub badges : List Badge
  pub emotes : Str
  pub color : Option Str

unfoldable pub parse : IrcMessage → Attempt Whisper
parse m = do
  expect m Commands.whisper
  params ← Message.params m
  (recipient, text) ← done (split_once_at (codes " :") params)
  id ← Message.tag m TagNames.user_id
  login ← nick m
  name ← Message.tag m TagNames.display_name
  color ← color_of m
  badges ← badges_of m
  emotes ← emotes_of m
  ret (record {
    recipient = recipient;
    sender = record { id = id; login = login; name = name };
    text = text;
    badges = badges;
    emotes = emotes;
    color = color;
  })
