-- ===== src/Msg/ClearMsg.antt =====
-- msg/clear_msg.rs: one message is deleted.
use tmi_rs.Prelude.{Bool, Option}
use tmi_rs.Prelude.Int.{ℤ}
use tmi_rs.Str.{Str}
use tmi_rs.Irc.Command as Commands
use tmi_rs.Irc.Tag as TagNames
use tmi_rs.Irc.Message
use tmi_rs.Irc.Message.{IrcMessage}
use tmi_rs.Msg.Attempt.{Attempt, ◌>>=◌, ◌>>◌, ret}
use tmi_rs.Msg.Fields.{expect, parse_message_text, timestamp_of}

pub record ClearMsg (Time : Type 0) : Type 0 where
  pub channel : Str
  pub channel_id : Str
  pub sender : Str
  pub target_message_id : Str
  pub text : Str
  pub is_action : Bool
  pub timestamp : Time

module _ {Time : Type 0} (timestamp_millis : ℤ → Option Time) where
  unfoldable pub parse : IrcMessage → Attempt (ClearMsg Time)
  parse m = do
    expect m Commands.clear_msg
    input ← Message.text_ref m
    let (text, is_action) = parse_message_text input
    channel ← Message.channel m
    channel_id ← Message.tag m TagNames.room_id
    sender ← Message.tag m TagNames.login
    target_message_id ← Message.tag m TagNames.target_msg_id
    timestamp ← timestamp_of timestamp_millis m
    ret (record {
      channel = channel;
      channel_id = channel_id;
      sender = sender;
      target_message_id = target_message_id;
      text = text;
      is_action = is_action;
      timestamp = timestamp;
    })
