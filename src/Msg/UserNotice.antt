-- ===== src/Msg/UserNotice.antt =====
-- msg/user_notice.rs: a notice of an event in a channel.
pub mod Sender
use tmi_rs.Prelude.{Bool, true, false, List, Option, none, some}
use tmi_rs.Prelude.Int.{ℤ}
use tmi_rs.Str.{Str}
use tmi_rs.Irc.Command as Commands
use tmi_rs.Irc.Tag as TagNames
use tmi_rs.Irc.Message
use tmi_rs.Irc.Message.{IrcMessage}
use tmi_rs.Msg.Attempt.{Attempt, ◌>>=◌, ◌>>◌, ret, optional}
use tmi_rs.Msg.Badge.{Badge}
use tmi_rs.Msg.Fields.{User, expect, not_empty, badges_of, color_of, emotes_of, timestamp_of}
use tmi_rs.Msg.Event.{Event, event_of}

pub record UserNotice (Time : Type 0) : Type 0 where
  pub channel : Str
  pub channel_id : Str
  pub sender : Option User
  pub text : Option Str
  pub system_message : Option Str
  pub event : Event
  pub event_id : Str
  pub badges : List Badge
  pub emotes : Str
  pub color : Option Str
  pub message_id : Str
  pub timestamp : Time

-- The sender, if the event is not anonymous.
unfoldable pub sender_unless : IrcMessage → Bool → Attempt (Option User)
sender_unless m false = do
  id ← Message.tag m TagNames.user_id
  login ← Message.tag m TagNames.login
  name ← Message.tag m TagNames.display_name
  ret (some (record { id = id; login = login; name = name }))
sender_unless m true = ret none

module _ {Time : Type 0} (timestamp_millis : ℤ → Option Time) where
  unfoldable pub parse : IrcMessage → Attempt (UserNotice Time)
  unfolding sender_unless
  parse m = do
    expect m Commands.user_notice
    sender_id ← optional (Message.tag m TagNames.user_id)
    event_id ← Message.tag m TagNames.msg_id
    (event, is_anon) ← event_of m event_id sender_id
    sender ← sender_unless m is_anon
    channel ← Message.channel m
    channel_id ← Message.tag m TagNames.room_id
    text ← optional (Message.text_ref m)
    system ← optional (Message.tag m TagNames.system_msg)
    badges ← badges_of m
    emotes ← emotes_of m
    color ← color_of m
    message_id ← Message.tag m TagNames.id
    timestamp ← timestamp_of timestamp_millis m
    ret (record {
      channel = channel;
      channel_id = channel_id;
      sender = sender;
      text = text;
      system_message = not_empty system;
      event = event;
      event_id = event_id;
      badges = badges;
      emotes = emotes;
      color = color;
      message_id = message_id;
      timestamp = timestamp;
    })
