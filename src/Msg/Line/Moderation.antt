-- ===== src/Msg/Line/Moderation.antt =====
-- msg/clear_chat.rs and msg/clear_msg.rs: the typed messages of the lines that ban a user, time one
-- out, or delete a message.
use tmi_rs.Prelude.{Bool, ℕ, Option, none, some, bind?, ◌∷◌, ◌≡◌, refl, ap, sym, ◌∙◌, done}
use tmi_rs.Prelude.Int.{ℤ}
use tmi_rs.Str.{Str, codes, StartsChar}
use tmi_rs.Irc.Command as Commands
use tmi_rs.Irc.Tag as TagNames
use tmi_rs.Irc.Message as Lines
use tmi_rs.Irc.Message.{IrcMessage}
use tmi_rs.Irc.Message.Line.{Parts, Says, whole}
use tmi_rs.Irc.Message.Lookup.{first_value}
use tmi_rs.Msg.ClearChat
use tmi_rs.Msg.ClearChat.{ClearChat, Action, ban, time_out, action_of}
use tmi_rs.Msg.ClearMsg
use tmi_rs.Msg.ClearMsg.{ClearMsg}
use tmi_rs.Msg.Fields.{parse_duration, parse_timestamp}
use tmi_rs.Msg.Fields.Ends.{expect-some}
use tmi_rs.Msg.Line.{command-known, tag-first_value, text_ref-colon, timestamp_of-sent}
use tmi_rs.Msg.Line.Said.{SaysText, parse_message_text-SaysText}
use tmi_rs.Msg.Typed.{clear_chat, clear_msg, typed, from_irc}

-- What the line of a ban or a timeout holds.
pub record Removal (Time : Type 0) : Type 0 where
  pub channel_id : Str
  pub user : Str
  pub user_id : Str
  pub seconds : Option Str
  pub sent : Str
  pub time : Time

pub record Holds {Time : Type 0} (timestamp_millis : ℤ → Option Time) (p : Parts) (r : Removal Time)
    : Type 0 where
  pub command : p.command ≡ codes "CLEARCHAT"
  pub params : p.params ≡ b':' ∷ r.user
  pub starts : StartsChar r.user
  pub room_id : first_value (codes "room-id") p.tags ≡ some r.channel_id
  pub target : first_value (codes "target-user-id") p.tags ≡ some r.user_id
  pub duration : first_value (codes "ban-duration") p.tags ≡ r.seconds
  pub sent : first_value (codes "tmi-sent-ts") p.tags ≡ some r.sent
  pub time : parse_timestamp timestamp_millis r.sent ≡ some r.time

-- A timeout where the seconds are known, and else a ban.
abbrev pub removed : Str → Str → Option ℕ → Action
removed user id (some seconds) = time_out (record { user = user; id = id; duration = seconds })
removed user id none = ban (record { user = user; id = id })

action_of-removed :
    (m : IrcMessage) (user id : Str) (seconds : Option ℕ)
    → Lines.tag m TagNames.target_user_id ≡ done (some id)
    → action_of m (some user) seconds ≡ done (some (removed user id seconds))
unfolding action_of
action_of-removed m user id none e = rw e refl
action_of-removed m user id (some seconds) e = rw e refl

module _ {Time : Type 0} (timestamp_millis : ℤ → Option Time) (p : Parts) where
  module _ (r : Removal Time) (holds : Holds timestamp_millis p r) where
    -- The typed message.
    abbrev pub removal : ClearChat Time
    removal = record {
      channel = b'#' ∷ p.channel;
      channel_id = r.channel_id;
      action = removed r.user r.user_id (bind? r.seconds parse_duration);
      timestamp = r.time;
    }

    pub from_irc-removal :
        (m : IrcMessage) → Says m p → from_irc timestamp_millis m ≡ done (some (clear_chat removal))
    unfolding from_irc typed ClearChat.parse TagNames.as_str Commands.as_str
    from_irc-removal m says =
        let is_command =
          command-known m (whole p) says Commands.clear_chat tt (sym holds.command) in
        let target =
          tag-first_value m (whole p) says TagNames.target_user_id ∙ ap done holds.target in
        rw
          (
            is_command,
            expect-some m Commands.clear_chat is_command,
            says.channel_lem,
            tag-first_value m (whole p) says TagNames.room_id ∙ ap done holds.room_id,
            text_ref-colon m (whole p) says r.user holds.starts (ap (λ s. some s) holds.params),
            tag-first_value m (whole p) says TagNames.ban_duration ∙ ap done holds.duration,
            action_of-removed m r.user r.user_id (bind? r.seconds parse_duration) target,
            timestamp_of-sent m (whole p) says timestamp_millis r.sent r.time holds.sent holds.time,
          )
          refl

-- What the line of a deleted message holds.
pub record Deletion (Time : Type 0) : Type 0 where
  pub channel_id : Str
  pub login : Str
  pub message_id : Str
  pub text : Str
  pub said : Str
  pub is_action : Bool
  pub sent : Str
  pub time : Time

pub record Deletes {Time : Type 0} (timestamp_millis : ℤ → Option Time) (p : Parts)
    (d : Deletion Time) : Type 0 where
  pub command : p.command ≡ codes "CLEARMSG"
  pub params : p.params ≡ b':' ∷ d.text
  pub starts : StartsChar d.text
  pub says : SaysText d.text d.said d.is_action
  pub room_id : first_value (codes "room-id") p.tags ≡ some d.channel_id
  pub login : first_value (codes "login") p.tags ≡ some d.login
  pub message_id : first_value (codes "target-msg-id") p.tags ≡ some d.message_id
  pub sent : first_value (codes "tmi-sent-ts") p.tags ≡ some d.sent
  pub time : parse_timestamp timestamp_millis d.sent ≡ some d.time

module _ {Time : Type 0} (timestamp_millis : ℤ → Option Time) (p : Parts) (d : Deletion Time)
    (holds : Deletes timestamp_millis p d) where
  abbrev pub deletion : ClearMsg Time
  deletion = record {
    channel = b'#' ∷ p.channel;
    channel_id = d.channel_id;
    sender = d.login;
    target_message_id = d.message_id;
    text = d.said;
    is_action = d.is_action;
    timestamp = d.time;
  }

  pub from_irc-deletion :
      (m : IrcMessage) → Says m p → from_irc timestamp_millis m ≡ done (some (clear_msg deletion))
  unfolding from_irc typed ClearMsg.parse TagNames.as_str Commands.as_str
  from_irc-deletion m says =
      let is_command = command-known m (whole p) says Commands.clear_msg tt (sym holds.command) in
      rw
        (
          is_command,
          expect-some m Commands.clear_msg is_command,
          text_ref-colon m (whole p) says d.text holds.starts (ap (λ s. some s) holds.params),
          parse_message_text-SaysText d.text d.said d.is_action holds.says,
          says.channel_lem,
          tag-first_value m (whole p) says TagNames.room_id ∙ ap done holds.room_id,
          tag-first_value m (whole p) says TagNames.login ∙ ap done holds.login,
          tag-first_value m (whole p) says TagNames.target_msg_id ∙ ap done holds.message_id,
          timestamp_of-sent m (whole p) says timestamp_millis d.sent d.time holds.sent holds.time,
        )
        refl
