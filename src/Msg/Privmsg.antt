-- ===== src/Msg/Privmsg.antt =====
-- msg/privmsg.rs: a chat message.
pub mod Accepted
use tmi_rs.Prelude.{ℕ, Bool, List, Option}
use tmi_rs.Prelude.Int.{ℤ}
use tmi_rs.Str.{Str}
use tmi_rs.Str.Numbers.{parse_u64}
use tmi_rs.Irc.Command as Commands
use tmi_rs.Irc.Tag as TagNames
use tmi_rs.Irc.Message
use tmi_rs.Irc.Message.{IrcMessage}
use tmi_rs.Msg.Attempt.{Attempt, ◌>>=◌, ◌>>◌, ret, optional}
use tmi_rs.Msg.Badge.{Badge}
use tmi_rs.Msg.Fields.{
  User, expect, not_empty, nick, badges_of, color_of, emotes_of, timestamp_of, number_of,
  parse_message_text,
}
use tmi_rs.Msg.PinnedChat.{PinnedChat, pinned_chat_of}

pub record Reply : Type 0 where
  pub thread_parent_message_id : Str
  pub thread_parent_user_login : Str
  pub message_id : Str
  pub sender : User
  pub text : Str

pub record Privmsg (Time : Type 0) : Type 0 where
  pub channel : Str
  pub channel_id : Str
  pub msg_id : Option Str
  pub id : Str
  pub sender : User
  pub reply_to : Option Reply
  pub pinned_chat : Option PinnedChat
  pub text : Str
  pub is_action : Bool
  pub badges : List Badge
  pub color : Option Str
  pub custom_reward_id : Option Str
  pub bits : Option ℕ
  pub emotes : Str
  pub timestamp : Time

-- What `parse` does with the tags of a reply.
unfoldable pub reply_of : IrcMessage → Attempt Reply
reply_of m = do
  message_id ← Message.tag m TagNames.reply_parent_msg_id
  thread_parent_message_id ← Message.tag m TagNames.reply_thread_parent_msg_id
  thread_parent_user_login ← Message.tag m TagNames.reply_thread_parent_user_login
  id ← Message.tag m TagNames.reply_parent_user_id
  login ← Message.tag m TagNames.reply_parent_user_login
  name ← Message.tag m TagNames.reply_parent_display_name
  text ← Message.tag m TagNames.reply_parent_msg_body
  ret (record {
    thread_parent_message_id = thread_parent_message_id;
    thread_parent_user_login = thread_parent_user_login;
    message_id = message_id;
    sender = record { id = id; login = login; name = name };
    text = text;
  })

-- The sender of a chat message.
unfoldable pub sender_of : IrcMessage → Attempt User
sender_of m = do
  id ← Message.tag m TagNames.user_id
  login ← nick m
  name ← Message.tag m TagNames.display_name
  ret (record { id = id; login = login; name = name })

module _ {Time : Type 0} (timestamp_millis : ℤ → Option Time) where
  unfoldable pub parse : IrcMessage → Attempt (Privmsg Time)
  unfolding reply_of sender_of
  parse m = do
    expect m Commands.privmsg
    input ← Message.text_ref m
    let (text, is_action) = parse_message_text input
    channel ← Message.channel m
    channel_id ← Message.tag m TagNames.room_id
    msg_id ← optional (Message.tag m TagNames.msg_id)
    id ← Message.tag m TagNames.id
    sender ← sender_of m
    reply_to ← optional (reply_of m)
    pinned_chat ← optional (pinned_chat_of m)
    badges ← badges_of m
    color ← color_of m
    reward ← optional (Message.tag m TagNames.custom_reward_id)
    bits ← optional (number_of parse_u64 m TagNames.bits)
    emotes ← emotes_of m
    timestamp ← timestamp_of timestamp_millis m
    ret (record {
      channel = channel;
      channel_id = channel_id;
      msg_id = msg_id;
      id = id;
      sender = sender;
      reply_to = reply_to;
      pinned_chat = pinned_chat;
      text = text;
      is_action = is_action;
      badges = badges;
      color = color;
      custom_reward_id = not_empty reward;
      bits = bits;
      emotes = emotes;
      timestamp = timestamp;
    })
