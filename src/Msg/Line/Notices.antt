-- ===== src/Msg/Line/Notices.antt =====
-- msg/user_notice.rs: the typed message of a line that announces an event.
use tmi_rs.Prelude.{
  Bool, true, false, List, Option, none, some, [], ◌∷◌, ◌≡◌, refl, ap, sym, ◌∙◌, done,
}
use tmi_rs.Prelude.Int.{ℤ}
use tmi_rs.Str.{Str, codes, StartsChar}
use tmi_rs.Irc.Command as Commands
use tmi_rs.Irc.Tag as TagNames
use tmi_rs.Irc.Message.{IrcMessage}
use tmi_rs.Irc.Message.Line.{Parts, Says, whole}
use tmi_rs.Irc.Message.Lookup.{first_value}
use tmi_rs.Msg.Badge.{Badge, unwrap_or}
use tmi_rs.Msg.Event.{Event}
use tmi_rs.Msg.Fields.{User, not_empty, parse_timestamp}
use tmi_rs.Msg.Fields.Ends.{expect-some}
use tmi_rs.Msg.UserNotice
use tmi_rs.Msg.UserNotice.{UserNotice, sender_unless}
use tmi_rs.Msg.Line.{
  command-known, tag-first_value, text_ref-colon, timestamp_of-sent, color_of-first_value,
  emotes_of-first_value,
}
use tmi_rs.Msg.Line.Values.{HasBadges, badges_of-HasBadges}
use tmi_rs.Msg.Line.Events.{Has, Announces, event_of-Announces}
use tmi_rs.Msg.Typed.{user_notice, typed, from_irc}

-- Who has sent a notice: nobody where the event is anonymous.
pub data Sends (tags : List (Str × Str)) (anon : Bool) (sender : Option User) : Type 0 where
  by_user :
      (u : User)
      → anon ≡ false
      → sender ≡ some u
      → Has tags "user-id" u.id
      → Has tags "login" u.login
      → Has tags "display-name" u.name
      → Sends tags anon sender
  by_nobody : anon ≡ true → sender ≡ none → Sends tags anon sender

-- What a notice says.
pub record Notice (Time : Type 0) : Type 0 where
  pub channel_id : Str
  pub id : Str
  pub event_id : Str
  pub event : Event
  pub anon : Bool
  pub sender : Option User
  pub text : Str
  pub badges : List Badge
  pub sent : Str
  pub time : Time

-- The parts of a line hold it.
pub record Holds {Time : Type 0} (timestamp_millis : ℤ → Option Time) (p : Parts) (n : Notice Time)
    : Type 0 where
  pub command : p.command ≡ codes "USERNOTICE"
  pub params : p.params ≡ b':' ∷ n.text
  pub starts : StartsChar n.text
  pub room_id : Has p.tags "room-id" n.channel_id
  pub id : Has p.tags "id" n.id
  pub msg_id : Has p.tags "msg-id" n.event_id
  pub announces : Announces p.tags n.event_id n.event n.anon
  pub sends : Sends p.tags n.anon n.sender
  pub badges : HasBadges p.tags n.badges
  pub sent : Has p.tags "tmi-sent-ts" n.sent
  pub time : parse_timestamp timestamp_millis n.sent ≡ some n.time

module _ {Time : Type 0} (timestamp_millis : ℤ → Option Time) (p : Parts) where
  sender_unless-Sends :
      (m : IrcMessage) (anon : Bool) (sender : Option User)
      → Says m p
      → Sends p.tags anon sender
      → sender_unless m anon ≡ done (some sender)
  unfolding sender_unless TagNames.as_str
  sender_unless-Sends m anon sender says (by_nobody is_anon nobody) = rw (is_anon, nobody) refl
  sender_unless-Sends m anon sender says (by_user u is_named user id login name) =
      rw
        (
          is_named,
          user,
          tag-first_value m (whole p) says TagNames.user_id ∙ ap done id,
          tag-first_value m (whole p) says TagNames.login ∙ ap done login,
          tag-first_value m (whole p) says TagNames.display_name ∙ ap done name,
        )
        refl

  module _ (n : Notice Time) (holds : Holds timestamp_millis p n) where
    -- The typed message.
    abbrev pub notice : UserNotice Time
    notice = record {
      channel = b'#' ∷ p.channel;
      channel_id = n.channel_id;
      sender = n.sender;
      text = some n.text;
      system_message = not_empty (first_value (codes "system-msg") p.tags);
      event = n.event;
      event_id = n.event_id;
      badges = n.badges;
      emotes = unwrap_or [] (first_value (codes "emotes") p.tags);
      color = not_empty (first_value (codes "color") p.tags);
      message_id = n.id;
      timestamp = n.time;
    }

    parse-notice :
        (m : IrcMessage) → Says m p → UserNotice.parse timestamp_millis m ≡ done (some notice)
    unfolding UserNotice.parse TagNames.as_str Commands.as_str
    parse-notice m says =
        rw
          (
            expect-some m Commands.user_notice
                (command-known m (whole p) says Commands.user_notice tt (sym holds.command)),
            tag-first_value m (whole p) says TagNames.user_id,
            tag-first_value m (whole p) says TagNames.msg_id ∙ ap done holds.msg_id,
            event_of-Announces m p says n.event_id n.event n.anon holds.announces,
            sender_unless-Sends m n.anon n.sender says holds.sends,
            says.channel_lem,
            tag-first_value m (whole p) says TagNames.room_id ∙ ap done holds.room_id,
            text_ref-colon m (whole p) says n.text holds.starts (ap (λ s. some s) holds.params),
            tag-first_value m (whole p) says TagNames.system_msg,
            badges_of-HasBadges m (whole p) says n.badges holds.badges,
            emotes_of-first_value m (whole p) says,
            color_of-first_value m (whole p) says,
            tag-first_value m (whole p) says TagNames.id ∙ ap done holds.id,
            timestamp_of-sent m (whole p) says timestamp_millis n.sent n.time holds.sent holds.time,
          )
          refl

    pub from_irc-notice :
        (m : IrcMessage) → Says m p → from_irc timestamp_millis m ≡ done (some (user_notice notice))
    unfolding from_irc typed Commands.as_str
    from_irc-notice m says =
        rw
          (
            command-known m (whole p) says Commands.user_notice tt (sym holds.command),
            parse-notice m says,
          )
          refl
