-- ===== src/Msg/Typed.antt =====
-- msg.rs: the typed message of a line. `none` stands for `Err(MessageParseError)`.
pub mod Kinds
pub mod Safety
pub mod Total
use tmi_rs.Prelude.{Option, none, some, Outcome, done}
use tmi_rs.Prelude as Outcomes
use tmi_rs.Prelude.Int.{ℤ}
use tmi_rs.Str.{Str}
use tmi_rs.Irc.Command.{Command}
use tmi_rs.Irc.Message as Lines
use tmi_rs.Irc.Message.{IrcMessage, TagParser}
use tmi_rs.Msg.Attempt.{Attempt, ◌>>=◌, ret, lift}
use tmi_rs.Msg.ClearChat
use tmi_rs.Msg.ClearMsg
use tmi_rs.Msg.Membership.{Join, Part, parse_join, parse_part}
use tmi_rs.Msg.Notice
use tmi_rs.Msg.Ping.{Ping, Pong, parse_ping, parse_pong}
use tmi_rs.Msg.Privmsg
use tmi_rs.Msg.RoomState
use tmi_rs.Msg.UserNotice
use tmi_rs.Msg.UserState.{UserState, GlobalUserState, parse_user_state, parse_global}
use tmi_rs.Msg.Whisper

pub data Message (Time : Type 0) : Type 0 where
  clear_chat : ClearChat.ClearChat Time → Message Time
  clear_msg : ClearMsg.ClearMsg Time → Message Time
  global_user_state : GlobalUserState → Message Time
  join : Join → Message Time
  notice : Notice.Notice → Message Time
  part : Part → Message Time
  ping : Ping → Message Time
  pong : Pong → Message Time
  privmsg : Privmsg.Privmsg Time → Message Time
  reconnect : Message Time
  room_state : RoomState.RoomState → Message Time
  user_notice : UserNotice.UserNotice Time → Message Time
  user_state : UserState → Message Time
  whisper : Whisper.Whisper → Message Time
  other : IrcMessage → Message Time

-- `T::from_irc(message)?.into()`
abbrev pub into {ℓ κ} : {A : Type ℓ} {B : Type κ} → (A → B) → Attempt A → Attempt B
into f attempt = do a ← attempt; ret (f a)

module _ {Time : Type 0} (timestamp_millis : ℤ → Option Time) where
  -- The match on the command.
  unfoldable pub typed : IrcMessage → Command → Attempt (Message Time)
  typed m Command.clear_chat = into clear_chat (ClearChat.parse timestamp_millis m)
  typed m Command.clear_msg = into clear_msg (ClearMsg.parse timestamp_millis m)
  typed m Command.global_user_state = into global_user_state (parse_global m)
  typed m Command.join = into join (parse_join m)
  typed m Command.notice = into notice (Notice.parse m)
  typed m Command.part = into part (parse_part m)
  typed m Command.ping = into ping (parse_ping m)
  typed m Command.pong = into pong (parse_pong m)
  typed m Command.privmsg = into privmsg (Privmsg.parse timestamp_millis m)
  typed m Command.reconnect = ret reconnect
  typed m Command.room_state = into room_state (RoomState.parse m)
  typed m Command.user_notice = into user_notice (UserNotice.parse timestamp_millis m)
  typed m Command.user_state = into user_state (parse_user_state m)
  typed m Command.whisper = into whisper (Whisper.parse m)
  typed m _ = ret (other m)

  -- `Message::from_irc`
  unfoldable pub from_irc : IrcMessage → Attempt (Message Time)
  unfolding typed
  from_irc m = do command ← lift (Lines.command m); typed m command

  -- `Message::parse`
  unfoldable pub parse : TagParser → Str → Attempt (Message Time)
  unfolding from_irc
  parse parse_tags src = do m ← Lines.parse parse_tags src; from_irc m
