-- ===== src/Msg/Privmsg/Accepted.antt =====
-- Chat messages with all that they must have.
use tmi_rs.Prelude.{Option, some, ◌≡◌, refl, done}
use tmi_rs.Prelude.Int.{ℤ}
use tmi_rs.Str.{Str}
use tmi_rs.Irc.Command as Commands
use tmi_rs.Irc.Tag as TagNames
use tmi_rs.Irc.Message
use tmi_rs.Irc.Message.{IrcMessage}
use tmi_rs.Irc.Message.Bounds.{WellFormed}
use tmi_rs.Msg.Attempt.Laws.{Succeeds, Gives, gives_rules, succeeds_rules}
use tmi_rs.Msg.Fields.{parse_message_text, parse_timestamp, timestamp_of, nick, expect}
use tmi_rs.Msg.Fields.Ends.{
  expect-some, timestamp_of-some, field_rules, badges_of-Succeeds, color_of-Succeeds,
  emotes_of-Succeeds,
}
use tmi_rs.Msg.Privmsg.{Privmsg, sender_of, parse}
use tmi_rs.Msg.Typed.Safety.{reply_of-Ends, pinned_chat_of-Ends}

-- What a chat message must have: a text, a channel, the sender's name in the prefix, and five tags.
pub record IsChat {Time : Type 0} (timestamp_millis : ℤ → Option Time) (m : IrcMessage)
    : Type 0 where
  pub command : Message.command m ≡ done Commands.Command.privmsg
  pub text : Str
  pub text_lem : Message.text_ref m ≡ done (some text)
  pub channel : Str
  pub channel_lem : Message.channel m ≡ done (some channel)
  pub room_id : Str
  pub room_id_lem : Message.tag m TagNames.room_id ≡ done (some room_id)
  pub id : Str
  pub id_lem : Message.tag m TagNames.id ≡ done (some id)
  pub user_id : Str
  pub user_id_lem : Message.tag m TagNames.user_id ≡ done (some user_id)
  pub login : Str
  pub login_lem : nick m ≡ done (some login)
  pub name : Str
  pub name_lem : Message.tag m TagNames.display_name ≡ done (some name)
  pub sent : Str
  pub sent_lem : Message.tag m TagNames.tmi_sent_ts ≡ done (some sent)
  pub time : Time
  pub time_lem : parse_timestamp timestamp_millis sent ≡ some time

module _ {Time : Type 0} (timestamp_millis : ℤ → Option Time) (m : IrcMessage) (ok : WellFormed m)
    (chat : IsChat timestamp_millis m) where
  timestamp_of-chat : timestamp_of timestamp_millis m ≡ done (some chat.time)
  timestamp_of-chat =
      timestamp_of-some timestamp_millis m chat.sent chat.time chat.sent_lem chat.time_lem

  expect-chat : expect m Commands.privmsg ≡ done (some tt)
  expect-chat = expect-some m Commands.privmsg chat.command

  sender_of-chat :
      sender_of m ≡ done (some (record { id = chat.user_id; login = chat.login; name = chat.name }))
  unfolding sender_of
  sender_of-chat = rw (chat.user_id_lem, chat.login_lem, chat.name_lem) refl

  parse-Succeeds : Succeeds (parse timestamp_millis m)
  unfolding parse
  parse-Succeeds =
      rw
        (
          expect-chat, chat.text_lem, chat.channel_lem, chat.room_id_lem, chat.id_lem,
          sender_of-chat, timestamp_of-chat,
        )
        (search
          (
            field_rules, succeeds_rules, badges_of-Succeeds, color_of-Succeeds, emotes_of-Succeeds,
            reply_of-Ends, pinned_chat_of-Ends,
          )
          depth 40)

  -- What is kept of the parts that a chat message must have.
  abbrev pub Keeps : Privmsg Time → Type 0
  Keeps r =
      (r.channel ≡ chat.channel)
      × (r.channel_id ≡ chat.room_id)
      × (r.id ≡ chat.id)
      × (r.sender ≡ record { id = chat.user_id; login = chat.login; name = chat.name })
      × ((r.text, r.is_action) ≡ parse_message_text chat.text)
      × (r.timestamp ≡ chat.time)

  parse-Keeps : Gives Keeps (parse timestamp_millis m)
  unfolding parse
  parse-Keeps =
      rw
        (
          expect-chat, chat.text_lem, chat.channel_lem, chat.room_id_lem, chat.id_lem,
          sender_of-chat, timestamp_of-chat,
        )
        (search gives_rules depth 40)

  -- A chat message with a text, a channel, a sender and the five tags of every chat message is
  -- accepted, whatever its other tags hold, and it keeps those parts; its text is read as a plain
  -- text or as an action.
  pub parse-chat : (r : Privmsg Time) × (parse timestamp_millis m ≡ done (some r)) × Keeps r
  parse-chat =
      let accepted = parse-Succeeds in
      (accepted.value, accepted.value_lem, parse-Keeps.gives accepted.value accepted.value_lem)
