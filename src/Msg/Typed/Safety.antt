-- ===== src/Msg/Typed/Safety.antt =====
-- The typed messages on lines that keep the invariant.
use tmi_rs.Prelude.{ℕ, Bool, true, false, Option, none, some, Returns}
use tmi_rs.Str.{Str}
use tmi_rs.Prelude.Int.{ℤ}
use tmi_rs.Irc.Message.{IrcMessage}
use tmi_rs.Irc.Message.Bounds.{WellFormed}
use tmi_rs.Irc.Command.{Command}
use tmi_rs.Msg.Attempt.Laws.{Ends, ends_rules}
use tmi_rs.Msg.Fields.Ends.{field_rules}
use tmi_rs.Msg.ClearChat
use tmi_rs.Msg.ClearMsg
use tmi_rs.Msg.Membership
use tmi_rs.Msg.Notice
use tmi_rs.Msg.Ping
use tmi_rs.Msg.PinnedChat
use tmi_rs.Msg.Privmsg
use tmi_rs.Msg.RoomState
use tmi_rs.Msg.Event.Ends.{event_of-Ends}
use tmi_rs.Msg.UserNotice
use tmi_rs.Msg.UserState
use tmi_rs.Msg.Whisper
use tmi_rs.Msg.Typed.{typed, from_irc}

module _ (m : IrcMessage) (ok : WellFormed m) where
  room_state-Ends : Ends (RoomState.parse m)
  unfolding RoomState.parse
  room_state-Ends = search field_rules depth 30

  join-Ends : Ends (Membership.parse_join m)
  unfolding Membership.parse_join
  join-Ends = search field_rules depth 30

  part-Ends : Ends (Membership.parse_part m)
  unfolding Membership.parse_part
  part-Ends = search field_rules depth 30

  ping-Ends : Ends (Ping.parse_ping m)
  unfolding Ping.parse_ping
  ping-Ends = search field_rules depth 30

  pong-Ends : Ends (Ping.parse_pong m)
  unfolding Ping.parse_pong
  pong-Ends = search field_rules depth 30

  notice-Ends : Ends (Notice.parse m)
  unfolding Notice.parse
  notice-Ends = search field_rules depth 30

  whisper-Ends : Ends (Whisper.parse m)
  unfolding Whisper.parse
  whisper-Ends = search field_rules depth 30

  user_state-Ends : Ends (UserState.parse_user_state m)
  unfolding UserState.parse_user_state
  user_state-Ends = search field_rules depth 30

  global_user_state-Ends : Ends (UserState.parse_global m)
  unfolding UserState.parse_global
  global_user_state-Ends = search field_rules depth 30

  pub reply_of-Ends : Ends (Privmsg.reply_of m)
  unfolding Privmsg.reply_of
  reply_of-Ends = search field_rules depth 30

  pub pinned_chat_of-Ends : Ends (PinnedChat.pinned_chat_of m)
  unfolding PinnedChat.pinned_chat_of
  pinned_chat_of-Ends = search field_rules depth 30

  sender_of-Ends : Ends (Privmsg.sender_of m)
  unfolding Privmsg.sender_of
  sender_of-Ends = search field_rules depth 30

  action_of-Ends :
      (text : Option Str) (seconds : Option ℕ) → Ends (ClearChat.action_of m text seconds)
  unfolding ClearChat.action_of
  action_of-Ends (some name) (some seconds) = search field_rules depth 30
  action_of-Ends (some name) none = search field_rules depth 30
  action_of-Ends none seconds = search field_rules

  sender_unless-Ends : (is_anon : Bool) → Ends (UserNotice.sender_unless m is_anon)
  unfolding UserNotice.sender_unless
  sender_unless-Ends false = search field_rules depth 30
  sender_unless-Ends true = search field_rules

  module _ {Time : Type 0} (timestamp_millis : ℤ → Option Time) where
    clear_chat-Ends : Ends (ClearChat.parse timestamp_millis m)
    unfolding ClearChat.parse
    clear_chat-Ends = search (field_rules, action_of-Ends) depth 40

    clear_msg-Ends : Ends (ClearMsg.parse timestamp_millis m)
    unfolding ClearMsg.parse
    clear_msg-Ends = search field_rules depth 40

    privmsg-Ends : Ends (Privmsg.parse timestamp_millis m)
    unfolding Privmsg.parse
    privmsg-Ends = search (field_rules, reply_of-Ends, sender_of-Ends, pinned_chat_of-Ends) depth 40

    user_notice-Ends : Ends (UserNotice.parse timestamp_millis m)
    unfolding UserNotice.parse
    user_notice-Ends = search (field_rules, sender_unless-Ends, event_of-Ends) depth 40

    typed-Ends : (c : Command) → Ends (typed timestamp_millis m c)
    unfolding typed
    typed-Ends Command.clear_chat = search (ends_rules, clear_chat-Ends)
    typed-Ends Command.clear_msg = search (ends_rules, clear_msg-Ends)
    typed-Ends Command.global_user_state = search (ends_rules, global_user_state-Ends)
    typed-Ends Command.join = search (ends_rules, join-Ends)
    typed-Ends Command.notice = search (ends_rules, notice-Ends)
    typed-Ends Command.part = search (ends_rules, part-Ends)
    typed-Ends Command.ping = search (ends_rules, ping-Ends)
    typed-Ends Command.pong = search (ends_rules, pong-Ends)
    typed-Ends Command.privmsg = search (ends_rules, privmsg-Ends)
    typed-Ends Command.room_state = search (ends_rules, room_state-Ends)
    typed-Ends Command.user_notice = search (ends_rules, user_notice-Ends)
    typed-Ends Command.user_state = search (ends_rules, user_state-Ends)
    typed-Ends Command.whisper = search (ends_rules, whisper-Ends)
    typed-Ends _ = search ends_rules

    -- The typed message of a well-formed message is found, or it is not, without a panic.
    pub from_irc-Returns : Returns (from_irc timestamp_millis m)
    unfolding from_irc
    from_irc-Returns = Ends.ends (search (field_rules, typed-Ends))
