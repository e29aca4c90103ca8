-- ===== src/Examples/Lines.antt =====
-- Instances of the theorems that go from a written line to a typed message, or to a panic.
use tmi_rs.Prelude.{
  ℕ, zero, suc, none, false, ◌+◌, ◌⊎◌, ◌>>=◌, List, [], ◌∷◌, Option, some, ◌≡◌, refl, arith, length,
  All, done, panicked,
}
use tmi_rs.Prelude.Int.{ℤ, pos}
use tmi_rs.Str.{Str, codes, eq}
use tmi_rs.Str.Numbers as Numbers
use tmi_rs.Irc.Prefix as Prefixes
use tmi_rs.Irc.Tags.RoundTrip as TagsRoundTrip
use tmi_rs.Irc.Tags.RoundTrip.{IsPair}
use tmi_rs.Irc.Tags.{TagPair, collect}
use tmi_rs.Irc.Tags.Scalar as Scalars
use tmi_rs.Irc.Escape.Tagged.{CanEscape, escaped, unescaped, parse-escaped}
use tmi_rs.Str.Numbers.{parse_u64}
use tmi_rs.Examples.Badges.{chat_badges, chat_badges_said}
use tmi_rs.Msg.Line.Values.{lists_badges}
use tmi_rs.Msg.Badge.{BadgeData, to_subscriber}
use tmi_rs.Msg.Badge.Serde.{HasMonths, serialize, deserialize, deserialize-serialize}
use tmi_rs.Irc.Wide.{IsVector}
use tmi_rs.Irc.Wide.X86.{sse2, vector-IsVector}
use tmi_rs.Irc.Simd
use tmi_rs.Irc.Message as Messages
use tmi_rs.Irc.Message.Line.{Parts, IsLine, line}
use tmi_rs.Irc.Message.TooMany.{parse_many_tags}
use tmi_rs.Msg.Fields
use tmi_rs.Msg.Ping.{Ping}
use tmi_rs.Msg.Event as Events
use tmi_rs.Msg.Line.Chat.{Chat, Holds}
use tmi_rs.Msg.Line.Events.{raids}
use tmi_rs.Msg.Line.Notices as Notices
use tmi_rs.Msg.Line.Notices.{Notice, by_user, notice}
use tmi_rs.Msg.Line.Meanings.{announces, parse-Means}
use tmi_rs.Msg.Typed.{Message, parse}
use tmi_rs.Client.Write.{ping, pong, privmsg, body}
use tmi_rs.Client.Write.Answer.{parse-answer}
use tmi_rs.Client.Write.Builder
use tmi_rs.Client.Write.Builder.{built}
use tmi_rs.Client.Write.Said.{IsHeard}
use tmi_rs.Client.Write.TagsReadBack.{parse-body_tags}

sse2-IsVector : IsVector sse2
sse2-IsVector = vector-IsVector 16 (omega arith) (omega arith)

abbrev millis : ℤ → Option ℤ
millis z = some z

abbrev tags : List (Str × Str)
tags =
    (codes "room-id", codes "1")
    ∷ (codes "id", codes "2")
    ∷ (codes "user-id", codes "3")
    ∷ (codes "display-name", codes "D")
    ∷ (codes "tmi-sent-ts", codes "4")
    ∷ (codes "badges", codes "vip/1,subscriber/12")
    ∷ (codes "badge-info", codes "subscriber/13")
    ∷ []

abbrev parts : Parts
parts = record {
  tags = tags;
  prefix = record { nick = some (codes "d"); user = some (codes "u"); host = codes "h" };
  command = codes "PRIVMSG";
  channel = codes "c";
  params = codes ":hi";
}

abbrev chat : Chat ℤ
chat = record {
  channel_id = codes "1";
  id = codes "2";
  sender = record { id = codes "3"; login = codes "d"; name = codes "D" };
  text = codes "hi";
  said = codes "hi";
  is_action = false;
  badges = chat_badges;
  sent = codes "4";
  time = pos 4;
}

-- A raid.
abbrev raid_parts : Parts
raid_parts = record parts {
  tags =
      (codes "msg-id", codes "raid")
      ∷ (codes "msg-param-viewerCount", codes "15")
      ∷ (codes "msg-param-profileImageURL", codes "u")
      ∷ (codes "login", codes "d")
      ∷ tags;
  command = codes "USERNOTICE";
}

abbrev raid_notice : Notice ℤ
raid_notice = record {
  channel_id = codes "1";
  id = codes "2";
  event_id = codes "raid";
  event = Events.raid (record { viewer_count = 15; profile_image_url = codes "u" });
  anon = false;
  sender = some (record { id = codes "3"; login = codes "d"; name = codes "D" });
  text = codes "hi";
  badges = chat_badges;
  sent = codes "4";
  time = pos 4;
}

raid-Holds : Notices.Holds millis raid_parts raid_notice
unfolding eq Fields.parse_timestamp Numbers.parse_signed Numbers.magnitude Numbers.digits
    Numbers.parse_unsigned
raid-Holds = record {
  command = refl;
  params = refl;
  starts = refl;
  room_id = refl;
  id = refl;
  msg_id = refl;
  announces = raids 15 (codes "u") refl refl refl refl refl;
  sends =
      by_user (record { id = codes "3"; login = codes "d"; name = codes "D" }) refl refl refl refl
        refl;
  badges =
      lists_badges (codes "vip/1,subscriber/12") (codes "subscriber/13") refl refl chat_badges_said;
  sent = refl;
  time = refl;
}

raid_event :
    (IsLine raid_parts)
    → parse millis (Simd.parse sse2 5) (line raid_parts)
      ≡ done (some (Message.user_notice (notice millis raid_parts raid_notice raid-Holds)))
raid_event ok =
    parse-Means millis raid_parts sse2 sse2-IsVector 5
      (Message.user_notice (notice millis raid_parts raid_notice raid-Holds)) ok
      (announces raid_notice raid-Holds)

parse-answer_example :
    (received : Ping) × (parse millis (Simd.parse sse2 9) (body (ping (codes "tmi")))
      ≡ done (some (Message.ping received)))
    × (parse millis (Simd.parse sse2 9) (body (pong received.nonce))
        ≡ done (some (Message.pong (record { nonce = some (codes "tmi") }))))
unfolding body
parse-answer_example = parse-answer sse2 sse2-IsVector 9 millis (codes "tmi") refl (omega arith)

parse-body_tags_example :
    IsHeard
      (Simd.parse sse2 9)
      (body (privmsg (built (codes "#foo") (codes "hi: x") (some (codes "p")) (some (codes "n")))))
      (codes "#foo")
      (codes "hi: x")
      (some (codes "p"))
      (some (codes "n"))
unfolding body Builder.privmsg Builder.reply_to Builder.client_nonce
parse-body_tags_example =
    parse-body_tags sse2 sse2-IsVector 9 (codes "foo") (codes "hi: x")
      (omega arith, (omega arith, (omega arith, tt))) refl (some (codes "p")) (some (codes "n"))
      (omega arith, omega arith, refl, omega arith) (omega arith, omega arith, refl, omega arith)
      (omega arith)

-- As many tags with the same key and no value.
copies : ℕ → List (Str × Str)
copies zero = []
copies (suc n) = (codes "a", []) ∷ copies n

copies-IsPair : (n : ℕ) → All IsPair (copies n)
unfolding copies
copies-IsPair zero = tt
copies-IsPair (suc n) =
    (((omega arith, omega arith, refl, omega arith), (tt, tt, tt, omega arith)), copies-IsPair n)

length-copies : (n : ℕ) → length (copies n) ≡ n
unfolding copies
length-copies zero = refl
length-copies (suc n) = omega (arith, length-copies n)

parse_many_tags_example :
    Messages.parse (Simd.parse sse2 1) (TagsRoundTrip.line (copies 129) (codes "PING")) ≡ panicked
parse_many_tags_example =
    parse_many_tags sse2 sse2-IsVector 1 (copies 129) (codes "PING") (copies-IsPair 129)
      (omega (arith, length-copies 129))

abbrev values : List (Str × Str)
values = (codes "system-msg", codes "15 raiders; hi") ∷ (codes "id", []) ∷ []

values-CanEscape : All CanEscape values
values-CanEscape = (
  ((omega arith, omega arith, refl, omega arith), (omega arith, omega arith)),
  (((omega arith, omega arith, refl, omega arith), (tt, omega arith)), tt),
)

parse-escaped_example :
    (tags : List TagPair) × (Scalars.parse (TagsRoundTrip.line (escaped values) (codes "PING")) 0
      ≡ done (some tags, length (TagsRoundTrip.render (escaped values)) + 2))
    × ((collect (TagsRoundTrip.line (escaped values) (codes "PING")) tags >>= λ read.
          done (unescaped read))
        ≡ done values)
parse-escaped_example =
    parse-escaped values (codes "PING") values-CanEscape (omega arith) (omega arith)

abbrev badge_data : BadgeData
badge_data = record { name = codes "subscriber"; version = codes "3"; extra = some (codes "x") }

deserialize-serialize_example :
    (HasMonths badge_data.extra
      × (deserialize (serialize (to_subscriber badge_data)) ≡ some (to_subscriber badge_data)))
    ⊎ ((s : Str) × (badge_data.extra ≡ some s)
        × (parse_u64 s ≡ none)
        × (deserialize (serialize (to_subscriber badge_data)) ≡ none))
deserialize-serialize_example = deserialize-serialize badge_data
