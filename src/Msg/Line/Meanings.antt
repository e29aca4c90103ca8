-- ===== src/Msg/Line/Meanings.antt =====
-- msg.rs: what the lines of a channel mean.
use tmi_rs.Prelude.{ℕ, List, Option, some, ◌∷◌, ◌≡◌, refl, sym, ap, done}
use tmi_rs.Prelude.Int.{ℤ}
use tmi_rs.Str.{Str, codes, StartsChar}
use tmi_rs.Irc.Command as Commands
use tmi_rs.Irc.Tag as TagNames
use tmi_rs.Irc.Wide.{Vector, IsVector}
use tmi_rs.Irc.Simd
use tmi_rs.Irc.Message.{IrcMessage}
use tmi_rs.Irc.Message.Line.{Parts, IsLine, Says, whole, line, parse-line}
use tmi_rs.Irc.Message.Lookup.{first_value}
use tmi_rs.Msg.Fields.Ends.{expect-some}
use tmi_rs.Msg.Line.{command-known, tag-first_value, text_ref-colon}
use tmi_rs.Msg.Line.Chat as Chats
use tmi_rs.Msg.Line.Chat.{Chat, chat_message, from_irc-chat}
use tmi_rs.Msg.Line.Moderation as Moderations
use tmi_rs.Msg.Line.Moderation.{
  Removal, removal, from_irc-removal, Deletion, Deletes, deletion, from_irc-deletion,
}
use tmi_rs.Msg.Line.Notices as Events
use tmi_rs.Msg.Line.Notices.{notice, from_irc-notice}
use tmi_rs.Msg.Line.Values.{HasBadges, HasMode}
use tmi_rs.Msg.RoomState.{FollowersOnly}
use tmi_rs.Msg.Badge.{Badge}
use tmi_rs.Msg.Line.Members.{
  own_state, settings, from_irc-join, from_irc-part, from_irc-own_state, from_irc-settings,
}
use tmi_rs.Msg.Notice
use tmi_rs.Msg.Typed.{Message, typed, from_irc, parse}

-- What the parts of a line mean: a chat message, an event, a user who is banned or timed out, a
-- deleted message, a notice of the server, a user who joins or leaves, the state of the client's own
-- user, or settings of the channel.
pub data Means {Time : Type 0} (timestamp_millis : ℤ → Option Time) (p : Parts)
    : Message Time → Type 0 where
  chats :
      (c : Chat Time) (holds : Chats.Holds timestamp_millis p c)
      → Means timestamp_millis p (Message.privmsg (chat_message timestamp_millis p c holds))
  announces :
      (n : Events.Notice Time) (holds : Events.Holds timestamp_millis p n)
      → Means timestamp_millis p (Message.user_notice (notice timestamp_millis p n holds))
  removes :
      (r : Removal Time) (holds : Moderations.Holds timestamp_millis p r)
      → Means timestamp_millis p (Message.clear_chat (removal timestamp_millis p r holds))
  deletes :
      (d : Deletion Time) (holds : Deletes timestamp_millis p d)
      → Means timestamp_millis p (Message.clear_msg (deletion timestamp_millis p d holds))
  notifies :
      (text : Str)
      → p.command ≡ codes "NOTICE"
      → p.params ≡ b':' ∷ text
      → StartsChar text
      → Means timestamp_millis p (
          Message.notice (record {
            channel = some (b'#' ∷ p.channel);
            text = text;
            id = first_value (codes "msg-id") p.tags;
          }))
  joins :
      (user : Str)
      → p.command ≡ codes "JOIN"
      → p.prefix.nick ≡ some user
      → Means timestamp_millis p (Message.join (record { channel = b'#' ∷ p.channel; user = user }))
  leaves :
      (user : Str)
      → p.command ≡ codes "PART"
      → p.prefix.nick ≡ some user
      → Means timestamp_millis p (Message.part (record { channel = b'#' ∷ p.channel; user = user }))
  holds_state :
      (name : Str) (badges : List Badge)
      → p.command ≡ codes "USERSTATE"
      → first_value (codes "display-name") p.tags ≡ some name
      → HasBadges p.tags badges
      → Means timestamp_millis p (Message.user_state (own_state timestamp_millis p name badges))
  changes :
      (channel_id : Str) (mode : Option FollowersOnly)
      → p.command ≡ codes "ROOMSTATE"
      → first_value (codes "room-id") p.tags ≡ some channel_id
      → HasMode p.tags mode
      → Means timestamp_millis p (Message.room_state (settings timestamp_millis p channel_id mode))

module _ {Time : Type 0} (timestamp_millis : ℤ → Option Time) (p : Parts) where
  from_irc-notifies :
      (m : IrcMessage) (text : Str)
      → Says m p
      → p.command ≡ codes "NOTICE"
      → p.params ≡ b':' ∷ text
      → StartsChar text
      → from_irc timestamp_millis m
        ≡ done (
            some (
              Message.notice (record {
                channel = some (b'#' ∷ p.channel);
                text = text;
                id = first_value (codes "msg-id") p.tags;
              })))
  unfolding from_irc typed Notice.parse TagNames.as_str Commands.as_str
  from_irc-notifies m text says command params starts =
      let is_command = command-known m (whole p) says Commands.notice tt (sym command) in
      rw
        (
          is_command,
          expect-some m Commands.notice is_command,
          says.channel_lem,
          text_ref-colon m (whole p) says text starts (ap (λ s. some s) params),
          tag-first_value m (whole p) says TagNames.msg_id,
        )
        refl

  pub from_irc-Means :
      (m : IrcMessage) (t : Message Time)
      → Says m p
      → Means timestamp_millis p t
      → from_irc timestamp_millis m ≡ done (some t)
  from_irc-Means m t says (chats c holds) = from_irc-chat timestamp_millis p c holds m says
  from_irc-Means m t says (announces n holds) = from_irc-notice timestamp_millis p n holds m says
  from_irc-Means m t says (removes r holds) = from_irc-removal timestamp_millis p r holds m says
  from_irc-Means m t says (deletes d holds) = from_irc-deletion timestamp_millis p d holds m says
  from_irc-Means m t says (notifies text command params starts) =
      from_irc-notifies m text says command params starts
  from_irc-Means m t says (joins user command nick) =
      from_irc-join timestamp_millis p m user says command nick
  from_irc-Means m t says (leaves user command nick) =
      from_irc-part timestamp_millis p m user says command nick
  from_irc-Means m t says (holds_state name badges command named has) =
      from_irc-own_state timestamp_millis p m name badges says command named has
  from_irc-Means m t says (changes channel_id mode command room has) =
      from_irc-settings timestamp_millis p m channel_id mode says command room has

  -- A line is parsed, by every vector that keeps the contract and at every address, to exactly the
  -- typed message that its parts mean. `Means` lists the meanings: a chat message, an event, a ban
  -- or a timeout, a deleted message, a notice, a join or a part, the state of the client's own user
  -- and the settings of a room; `IsLine` lists the bounds and the separators.
  pub parse-Means :
      (v : Vector)
      → IsVector v
      → (addr : ℕ) (t : Message Time) → IsLine p
      → Means timestamp_millis p t
      → parse timestamp_millis (Simd.parse v addr) (line p) ≡ done (some t)
  unfolding parse
  parse-Means v law addr t ok means =
      let (m, parsed, says) = parse-line v law addr p ok in
      rw parsed (from_irc-Means m t says means)
