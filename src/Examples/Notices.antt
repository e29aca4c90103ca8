-- ===== src/Examples/Notices.antt =====
-- Instances of the theorems on chat messages, user notices, room states and cleared chats.
use tmi_rs.Prelude.{
  ◌*◌, ◌^◌, ◌<◌, true, [], ◌∷◌, Option, none, some, bind?, ◌≡◌, ◌≢◌, ◌↔◌, refl, arith, All, done,
}
use tmi_rs.Prelude.Int.{ℤ, pos}
use tmi_rs.Str.{
  Str, codes, slice, slice_from, is_char_boundary, strip_prefix, starts_with, find, eq, lookup,
}
use tmi_rs.Str.Boundary.{ascii-IsText}
use tmi_rs.Str.Numbers as Numbers
use tmi_rs.Str.Numbers.Laws.{IsDigit, decimal}
use tmi_rs.Irc.Span as Spans
use tmi_rs.Irc.Span.{from}
use tmi_rs.Irc.Prefix as Prefixes
use tmi_rs.Irc.Command as Commands
use tmi_rs.Irc.Command.{Command, RawCommand}
use tmi_rs.Irc.Channel
use tmi_rs.Irc.Tag as TagNames
use tmi_rs.Irc.Tags
use tmi_rs.Irc.Tags.{tag_pair}
use tmi_rs.Irc.Tags.Scalar
use tmi_rs.Irc.Message
use tmi_rs.Irc.Message.{IrcMessage}
use tmi_rs.Irc.Message.Bounds.{WellFormed}
use tmi_rs.Irc.Message.Bounds.Parsed.{parse_scalar-WellFormed}
use tmi_rs.Msg.Fields
use tmi_rs.Msg.Fields.{User}
use tmi_rs.Msg.Privmsg
use tmi_rs.Msg.Privmsg.Accepted.{IsChat, Keeps, parse-chat}
use tmi_rs.Msg.Event as Events
use tmi_rs.Msg.Ping as Pings
use tmi_rs.Msg.Event.Anonymous.{is_anonymous}
use tmi_rs.Msg.UserNotice
use tmi_rs.Msg.UserNotice.Sender.{parse-is_anonymous}
use tmi_rs.Msg.RoomState
use tmi_rs.Msg.RoomState.Followers.{parse-followers_only}
use tmi_rs.Msg.ClearChat
use tmi_rs.Msg.ClearChat.Outcomes.{Fits, parse-target}
use tmi_rs.Msg.Typed
use tmi_rs.Msg.Typed.Kinds.{from_irc-IsOfKind, IsOfKind}

-- chrono reads every number of milliseconds here.
abbrev millis : ℤ → Option ℤ
millis z = some z

abbrev chat_line : Str
chat_line = codes "@room-id=1;id=2;user-id=3;display-name=D;tmi-sent-ts=4 :d!d@h PRIVMSG #c :hi"

abbrev chat : IrcMessage
chat = record {
  src = chat_line;
  parts = record {
    tags =
        tag_pair 0 7 9
        ∷ tag_pair 10 12 14
        ∷ tag_pair 15 22 24
        ∷ tag_pair 25 37 39
        ∷ tag_pair 40 51 53
        ∷ [];
    prefix =
        some (record { nick = some (from 56 57); user = some (from 58 59); host = from 60 61 });
    command = RawCommand.privmsg;
    channel = some (from 70 72);
    params = some (from 73 76);
  };
}

chat_parsed : Message.parse Scalar.parse chat_line ≡ done (some chat)
unfolding Message.parse Scalar.parse Scalar.loop slice slice_from is_char_boundary strip_prefix
    starts_with find eq Spans.index Spans.from Prefixes.parse Commands.parse Commands.classify
    lookup Channel.parse Channel.parse_params Tags.push
chat_parsed = refl

chat-WellFormed : WellFormed chat
chat-WellFormed =
    parse_scalar-WellFormed chat_line (ascii-IsText chat_line (omega arith)) (omega arith) chat
      chat_parsed

chat-IsChat : IsChat millis chat
unfolding Message.command Message.text_ref Message.channel Message.channel_for Message.params
    Message.tag Message.prefix Commands.get Prefixes.get Prefixes.index_option Spans.index slice
    slice_from is_char_boundary find eq Spans.from Tags.key Tags.value TagNames.as_str
    Fields.parse_timestamp Numbers.parse_signed Numbers.magnitude Numbers.digits Fields.nick
chat-IsChat = record {
  command = refl;
  text = codes "hi";
  text_lem = refl;
  channel = codes "#c";
  channel_lem = refl;
  room_id = codes "1";
  room_id_lem = refl;
  id = codes "2";
  id_lem = refl;
  user_id = codes "3";
  user_id_lem = refl;
  login = codes "d";
  login_lem = refl;
  name = codes "D";
  name_lem = refl;
  sent = codes "4";
  sent_lem = refl;
  time = pos 4;
  time_lem = refl;
}

parse-chat_example :
    (r : Privmsg.Privmsg ℤ) × (Privmsg.parse millis chat ≡ done (some r))
    × Keeps millis chat chat-WellFormed chat-IsChat r
parse-chat_example = parse-chat millis chat chat-WellFormed chat-IsChat

abbrev ping_line : Str
ping_line = codes "PING :x"

abbrev ping : IrcMessage
ping = record {
  src = ping_line;
  parts = record {
    tags = [];
    prefix = none;
    command = RawCommand.ping;
    channel = none;
    params = some (from 5 7);
  };
}

ping_typed :
    Typed.from_irc millis ping ≡ done (some (Typed.ping (record { nonce = some (codes "x") })))
unfolding Message.command Message.text_ref Message.channel Message.channel_for Message.params
    Message.tag Message.prefix Commands.get Commands.eq Commands.variant Commands.payload
    Prefixes.get Prefixes.index_option Spans.index slice slice_from is_char_boundary find eq
    Spans.from Tags.key Tags.value TagNames.as_str Fields.expect Fields.nick Typed.from_irc
    Typed.typed Pings.parse_ping
ping_typed = refl

ping_command : Message.command ping ≡ done Command.ping
unfolding Message.command Commands.get
ping_command = refl

from_irc-IsOfKind_example :
    IsOfKind {Time = ℤ} ping Command.ping (Typed.ping (record { nonce = some (codes "x") }))
from_irc-IsOfKind_example =
    from_irc-IsOfKind millis ping Command.ping (Typed.ping (record { nonce = some (codes "x") }))
      ping_command ping_typed

abbrev room_line : Str
room_line = codes "@room-id=1;followers-only=10 ROOMSTATE #c"

abbrev room : IrcMessage
room = record {
  src = room_line;
  parts = record {
    tags = tag_pair 0 7 9 ∷ tag_pair 10 24 27 ∷ [];
    prefix = none;
    command = RawCommand.room_state;
    channel = some (from 39 41);
    params = none;
  };
}

abbrev settings : RoomState.RoomState
settings = record {
  channel = codes "#c";
  channel_id = codes "1";
  emote_only = none;
  followers_only = some (RoomState.enabled (some 600));
  r9k = none;
  slow = none;
  subs_only = none;
}

room_parsed : RoomState.parse room ≡ done (some settings)
unfolding Message.command Message.text_ref Message.channel Message.channel_for Message.params
    Message.tag Message.prefix Commands.get Commands.eq Commands.variant Commands.payload
    Prefixes.get Prefixes.index_option Spans.index slice slice_from is_char_boundary find eq
    Spans.from Tags.key Tags.value TagNames.as_str Fields.expect Fields.nick Fields.timestamp_of
    Fields.parse_timestamp Numbers.parse_signed Numbers.parse_unsigned Numbers.magnitude
    Numbers.digits RoomState.parse RoomState.followers_only_of
room_parsed = refl

room_minutes : Message.tag room TagNames.followers_only ≡ done (some (codes "10"))
unfolding Message.tag Tags.key Tags.value TagNames.as_str Spans.index Spans.from slice
    is_char_boundary eq
room_minutes = refl

ten_ne_nil : codes "10" ≢ []
ten_ne_nil e = cc

ten_digits : All IsDigit (codes "10")
ten_digits = omega arith

ten_fits : decimal (codes "10") < 2 ^ 63
ten_fits = omega arith

parse-followers_only_example :
    (settings.followers_only ≡ some (RoomState.enabled (some (decimal (codes "10") * 60))))
    ↔ ((0 < decimal (codes "10")) × (decimal (codes "10") * 60 < 2 ^ 64))
parse-followers_only_example =
    parse-followers_only room (codes "10") settings room_minutes ten_ne_nil ten_digits ten_fits
      room_parsed

abbrev cleared_line : Str
cleared_line = codes "@room-id=1;target-user-id=2;ban-duration=60;tmi-sent-ts=4 CLEARCHAT #c :u"

abbrev cleared : IrcMessage
cleared = record {
  src = cleared_line;
  parts = record {
    tags = tag_pair 0 7 9 ∷ tag_pair 10 24 26 ∷ tag_pair 27 39 42 ∷ tag_pair 43 54 56 ∷ [];
    prefix = none;
    command = RawCommand.clearchat;
    channel = some (from 68 70);
    params = some (from 71 73);
  };
}

abbrev timeout : ClearChat.ClearChat ℤ
timeout = record {
  channel = codes "#c";
  channel_id = codes "1";
  action = ClearChat.time_out (record { user = codes "u"; id = codes "2"; duration = 60 });
  timestamp = pos 4;
}

cleared_parsed : ClearChat.parse millis cleared ≡ done (some timeout)
unfolding Message.command Message.text_ref Message.channel Message.channel_for Message.params
    Message.tag Message.prefix Commands.get Commands.eq Commands.variant Commands.payload
    Prefixes.get Prefixes.index_option Spans.index slice slice_from is_char_boundary find eq
    Spans.from Tags.key Tags.value TagNames.as_str Fields.expect Fields.nick Fields.timestamp_of
    Fields.parse_timestamp Numbers.parse_signed Numbers.parse_unsigned Numbers.magnitude
    Numbers.digits Fields.parse_duration ClearChat.parse ClearChat.action_of
cleared_parsed = refl

cleared_text : Message.text_ref cleared ≡ done (some (codes "u"))
unfolding Message.text_ref Message.params Prefixes.index_option Spans.index Spans.from slice
    slice_from is_char_boundary find
cleared_text = refl

cleared_seconds : Message.tag cleared TagNames.ban_duration ≡ done (some (codes "60"))
unfolding Message.tag Tags.key Tags.value TagNames.as_str Spans.index Spans.from slice
    is_char_boundary eq
cleared_seconds = refl

parse-target_example :
    (ClearChat.target timeout ≡ some (codes "u"))
    × Fits (some (codes "u")) (bind? (some (codes "60")) Fields.parse_duration) timeout.action
parse-target_example =
    parse-target millis cleared (some (codes "u")) (some (codes "60")) timeout cleared_text
      cleared_seconds cleared_parsed

abbrev rite_line : Str
rite_line =
    codes
      "@msg-id=ritual;msg-param-ritual-name=new;user-id=3;login=d;display-name=D;room-id=1;id=2;tmi-sent-ts=4 USERNOTICE #c"

abbrev rite : IrcMessage
rite = record {
  src = rite_line;
  parts = record {
    tags =
        tag_pair 0 6 13
        ∷ tag_pair 14 35 39
        ∷ tag_pair 40 47 49
        ∷ tag_pair 50 55 57
        ∷ tag_pair 58 70 72
        ∷ tag_pair 73 80 82
        ∷ tag_pair 83 85 87
        ∷ tag_pair 88 99 101
        ∷ [];
    prefix = none;
    command = RawCommand.user_notice;
    channel = some (from 114 116);
    params = none;
  };
}

abbrev rite_notice : UserNotice.UserNotice ℤ
rite_notice = record {
  channel = codes "#c";
  channel_id = codes "1";
  sender = some (record { id = codes "3"; login = codes "d"; name = codes "D" });
  text = none;
  system_message = none;
  event = Events.ritual (record { name = codes "new" });
  event_id = codes "ritual";
  badges = [];
  emotes = [];
  color = none;
  message_id = codes "2";
  timestamp = pos 4;
}

rite_parsed : UserNotice.parse millis rite ≡ done (some rite_notice)
unfolding Message.command Message.text_ref Message.channel Message.channel_for Message.params
    Message.tag Message.prefix Commands.get Commands.eq Commands.variant Commands.payload
    Prefixes.get Prefixes.index_option Spans.index slice slice_from is_char_boundary find eq
    Spans.from Tags.key Tags.value TagNames.as_str Fields.expect Fields.nick Fields.timestamp_of
    Fields.parse_timestamp Numbers.parse_signed Numbers.parse_unsigned Numbers.magnitude
    Numbers.digits Fields.not_empty Fields.zip_badges Fields.badges_of Fields.color_of
    Fields.emotes_of lookup Events.ritual_arm Events.event_arms Events.event_of
    UserNotice.sender_unless UserNotice.parse
rite_parsed = refl

rite_user : Message.tag rite TagNames.user_id ≡ done (some (codes "3"))
unfolding Message.tag Tags.key Tags.value TagNames.as_str Spans.index Spans.from slice
    is_char_boundary eq
rite_user = refl

parse-is_anonymous_example :
    (rite_notice.sender ≡ none) ↔ (is_anonymous rite_notice.event_id (some (codes "3")) ≡ true)
parse-is_anonymous_example =
    parse-is_anonymous millis rite (some (codes "3")) rite_notice rite_user rite_parsed
