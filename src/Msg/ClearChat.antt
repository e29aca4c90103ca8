-- ===== src/Msg/ClearChat.antt =====
-- msg/clear_chat.rs: messages of a channel are cleared.
pub mod Outcomes
use tmi_rs.Prelude.{ℕ, Bool, true, false, Option, none, some, bind?}
use tmi_rs.Prelude.Int.{ℤ}
use tmi_rs.Str.{Str}
use tmi_rs.Irc.Command as Commands
use tmi_rs.Irc.Tag as TagNames
use tmi_rs.Irc.Message
use tmi_rs.Irc.Message.{IrcMessage}
use tmi_rs.Msg.Attempt.{Attempt, ◌>>=◌, ◌>>◌, ret, optional}
use tmi_rs.Msg.Fields.{expect, parse_duration, timestamp_of}

pub record Ban : Type 0 where
  pub user : Str
  pub id : Str

pub record TimeOut : Type 0 where
  pub user : Str
  pub id : Str
  pub duration : ℕ

pub data Action : Type 0 where
  clear : Action
  ban : Ban → Action
  time_out : TimeOut → Action

pub record ClearChat (Time : Type 0) : Type 0 where
  pub channel : Str
  pub channel_id : Str
  pub action : Action
  pub timestamp : Time

unfoldable pub is_clear : Action → Bool
is_clear clear = true
is_clear _ = false

unfoldable pub is_ban : Action → Bool
is_ban (ban _) = true
is_ban _ = false

unfoldable pub is_time_out : Action → Bool
is_time_out (time_out _) = true
is_time_out _ = false

target_of : Action → Option Str
target_of clear = none
target_of (ban b) = some b.user
target_of (time_out t) = some t.user

unfoldable pub target : {Time : Type 0} → ClearChat Time → Option Str
unfolding target_of
target c = target_of c.action

-- The match on the text and the duration.
unfoldable pub action_of : IrcMessage → Option Str → Option ℕ → Attempt Action
action_of m (some name) (some duration) = do
  id ← Message.tag m TagNames.target_user_id
  ret (time_out (record { user = name; id = id; duration = duration }))
action_of m (some name) none = do
  id ← Message.tag m TagNames.target_user_id
  ret (ban (record { user = name; id = id }))
action_of m none _ = ret clear

module _ {Time : Type 0} (timestamp_millis : ℤ → Option Time) where
  unfoldable pub parse : IrcMessage → Attempt (ClearChat Time)
  unfolding action_of
  parse m = do
    expect m Commands.clear_chat
    channel ← Message.channel m
    channel_id ← Message.tag m TagNames.room_id
    text ← optional (Message.text_ref m)
    seconds ← optional (Message.tag m TagNames.ban_duration)
    action ← action_of m text (bind? seconds parse_duration)
    timestamp ← timestamp_of timestamp_millis m
    ret (record {
      channel = channel;
      channel_id = channel_id;
      action = action;
      timestamp = timestamp;
    })
