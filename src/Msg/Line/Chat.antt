-- ===== src/Msg/Line/Chat.antt =====
-- msg/privmsg.rs: the typed message of a line with the parts of a chat message.
use tmi_rs.Prelude.{Bool, List, Option, some, bind?, [], ◌∷◌, ◌≡◌, refl, ap, sym, ◌∙◌, done}
use tmi_rs.Prelude.Int.{ℤ}
use tmi_rs.Str.{Str, codes, StartsChar}
use tmi_rs.Str.Numbers.{parse_u64}
use tmi_rs.Irc.Command as Commands
use tmi_rs.Irc.Tag as TagNames
use tmi_rs.Irc.Message.{IrcMessage}
use tmi_rs.Irc.Message.Line.{Parts, Says, whole}
use tmi_rs.Irc.Message.Lookup.{first_value}
use tmi_rs.Msg.Badge.{Badge, unwrap_or}
use tmi_rs.Msg.Fields.{User, parse_timestamp, not_empty}
use tmi_rs.Msg.Fields.Ends.{expect-some}
use tmi_rs.Msg.Line.{
  command-known, tag-first_value, nick-prefix, text_ref-colon, timestamp_of-sent,
  number_of-first_value, color_of-first_value, emotes_of-first_value,
}
use tmi_rs.Msg.Line.Values.{HasBadges, badges_of-HasBadges}
use tmi_rs.Msg.Line.Replies.{reply, pinned_chat, reply_of-reply, pinned_chat_of-pinned_chat}
use tmi_rs.Msg.Privmsg
use tmi_rs.Msg.Privmsg.{Privmsg, sender_of}
use tmi_rs.Msg.Line.Said.{SaysText, parse_message_text-SaysText}
use tmi_rs.Msg.Typed.{privmsg, typed, from_irc}

-- What a chat message says.
pub record Chat (Time : Type 0) : Type 0 where
  pub channel_id : Str
  pub id : Str
  pub sender : User
  pub text : Str
  pub said : Str
  pub is_action : Bool
  pub badges : List Badge
  pub sent : Str
  pub time : Time

-- The parts of a line hold it: the command, the params, the prefix and the first tag of each name.
pub record Holds {Time : Type 0} (timestamp_millis : ℤ → Option Time) (p : Parts) (chat : Chat Time)
    : Type 0 where
  pub command : p.command ≡ codes "PRIVMSG"
  pub params : p.params ≡ b':' ∷ chat.text
  pub starts : StartsChar chat.text
  pub says : SaysText chat.text chat.said chat.is_action
  pub login : p.prefix.nick ≡ some chat.sender.login
  pub room_id : first_value (codes "room-id") p.tags ≡ some chat.channel_id
  pub id : first_value (codes "id") p.tags ≡ some chat.id
  pub user_id : first_value (codes "user-id") p.tags ≡ some chat.sender.id
  pub name : first_value (codes "display-name") p.tags ≡ some chat.sender.name
  pub badges : HasBadges p.tags chat.badges
  pub sent : first_value (codes "tmi-sent-ts") p.tags ≡ some chat.sent
  pub time : parse_timestamp timestamp_millis chat.sent ≡ some chat.time

module _ {Time : Type 0} (timestamp_millis : ℤ → Option Time) (p : Parts) (chat : Chat Time)
    (holds : Holds timestamp_millis p chat) where
  -- The typed message.
  abbrev pub chat_message : Privmsg Time
  chat_message = record {
    channel = b'#' ∷ p.channel;
    channel_id = chat.channel_id;
    msg_id = first_value (codes "msg-id") p.tags;
    id = chat.id;
    sender = chat.sender;
    reply_to = reply p.tags;
    pinned_chat = pinned_chat p.tags;
    text = chat.said;
    is_action = chat.is_action;
    badges = chat.badges;
    color = not_empty (first_value (codes "color") p.tags);
    custom_reward_id = not_empty (first_value (codes "custom-reward-id") p.tags);
    bits = bind? (first_value (codes "bits") p.tags) parse_u64;
    emotes = unwrap_or [] (first_value (codes "emotes") p.tags);
    timestamp = chat.time;
  }

  sender_of-chat : (m : IrcMessage) → Says m p → sender_of m ≡ done (some chat.sender)
  unfolding sender_of TagNames.as_str
  sender_of-chat m says =
      rw
        (
          tag-first_value m (whole p) says TagNames.user_id ∙ ap done holds.user_id,
          nick-prefix m (whole p) says ∙ ap done holds.login,
          tag-first_value m (whole p) says TagNames.display_name ∙ ap done holds.name,
        )
        refl

  parse-chat :
      (m : IrcMessage) → Says m p → Privmsg.parse timestamp_millis m ≡ done (some chat_message)
  unfolding Privmsg.parse TagNames.as_str Commands.as_str
  parse-chat m says =
      rw
        (
          expect-some m Commands.privmsg
              (command-known m (whole p) says Commands.privmsg tt (sym holds.command)),
          text_ref-colon m (whole p) says chat.text holds.starts (ap (λ s. some s) holds.params),
          parse_message_text-SaysText chat.text chat.said chat.is_action holds.says,
          says.channel_lem,
          tag-first_value m (whole p) says TagNames.room_id ∙ ap done holds.room_id,
          tag-first_value m (whole p) says TagNames.msg_id,
          tag-first_value m (whole p) says TagNames.id ∙ ap done holds.id,
          sender_of-chat m says,
          reply_of-reply m p says,
          pinned_chat_of-pinned_chat m p says,
          badges_of-HasBadges m (whole p) says chat.badges holds.badges,
          color_of-first_value m (whole p) says,
          tag-first_value m (whole p) says TagNames.custom_reward_id,
          number_of-first_value m (whole p) says parse_u64 TagNames.bits,
          emotes_of-first_value m (whole p) says,
          timestamp_of-sent m (whole p) says timestamp_millis chat.sent chat.time holds.sent
              holds.time,
        )
        refl

  pub from_irc-chat :
      (m : IrcMessage) → Says m p → from_irc timestamp_millis m ≡ done (some (privmsg chat_message))
  unfolding from_irc typed Commands.as_str
  from_irc-chat m says =
      rw (command-known m (whole p) says Commands.privmsg tt (sym holds.command), parse-chat m says)
        refl
