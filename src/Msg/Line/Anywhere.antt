-- ===== src/Msg/Line/Anywhere.antt =====
-- msg.rs: what the lines of a server mean, those of a channel and those of none.
use tmi_rs.Prelude.{ℕ, List, Option, none, some, bind?, IfSome, ◌≡◌, sym, subst, done}
use tmi_rs.Prelude.Int.{ℤ}
use tmi_rs.Str.{Str, codes, StartsChar, Lacks}
use tmi_rs.Irc.Wide.{Vector, IsVector}
use tmi_rs.Irc.Simd
use tmi_rs.Irc.Message.{IrcMessage, or_empty}
use tmi_rs.Irc.Message.Line.{Parts, whole}
use tmi_rs.Irc.Message.Lookup.{first_value}
use tmi_rs.Irc.Message.Whole.{Whole, IsWhole, SaysWhole, line}
use tmi_rs.Irc.Message.Whole.Parsed.{parse-whole}
use tmi_rs.Msg.Fields.{User}
use tmi_rs.Msg.Line.Values.{HasBadges}
use tmi_rs.Msg.Badge.{Badge}
use tmi_rs.Msg.Line.Meanings.{Means, from_irc-Means}
use tmi_rs.Msg.Line.Server.{
  colon, addressed, whispered, global_state, from_irc-ping, from_irc-pong, from_irc-reconnect,
  from_irc-addressed, from_irc-whispered, from_irc-global_state,
}
use tmi_rs.Msg.Typed.{Message, from_irc, parse}

-- What a line means: a message of a channel, a ping or a pong with its nonce or without, a request to
-- reconnect, a notice to no channel, a whisper, or the global state of the client's own user.
pub data MeansAnywhere {Time : Type 0} (timestamp_millis : ℤ → Option Time) (w : Whole)
    : Message Time → Type 0 where
  of_channel :
      {t : Message Time} (p : Parts)
      → whole p ≡ w
      → Means timestamp_millis p t
      → MeansAnywhere timestamp_millis w t
  pings :
      (nonce : Option Str)
      → IfSome StartsChar nonce
      → w.command ≡ codes "PING"
      → w.params ≡ colon nonce
      → MeansAnywhere timestamp_millis w (Message.ping (record { nonce = nonce }))
  answers :
      (nonce : Option Str)
      → IfSome StartsChar nonce
      → w.command ≡ codes "PONG"
      → w.params ≡ colon nonce
      → MeansAnywhere timestamp_millis w (Message.pong (record { nonce = nonce }))
  reconnects : w.command ≡ codes "RECONNECT" → MeansAnywhere timestamp_millis w Message.reconnect
  addresses :
      (target text : Str)
      → Lacks b':' target
      → StartsChar text
      → w.command ≡ codes "NOTICE"
      → w.channel ≡ none
      → w.params ≡ some (addressed target text)
      → MeansAnywhere timestamp_millis w (
          Message.notice (record {
            channel = none;
            text = text;
            id = first_value (codes "msg-id") (or_empty w.tags);
          }))
  whispers :
      (recipient : Str) (sender : User) (text : Str) (badges : List Badge)
      → Lacks b' ' recipient
      → w.command ≡ codes "WHISPER"
      → w.params ≡ some (addressed recipient text)
      → bind? w.prefix (λ p. p.nick) ≡ some sender.login
      → first_value (codes "user-id") (or_empty w.tags) ≡ some sender.id
      → first_value (codes "display-name") (or_empty w.tags) ≡ some sender.name
      → HasBadges (or_empty w.tags) badges
      → MeansAnywhere timestamp_millis w
          (Message.whisper (whispered timestamp_millis w recipient sender text badges))
  holds_everywhere :
      (id name : Str) (badges : List Badge)
      → w.command ≡ codes "GLOBALUSERSTATE"
      → first_value (codes "user-id") (or_empty w.tags) ≡ some id
      → first_value (codes "display-name") (or_empty w.tags) ≡ some name
      → HasBadges (or_empty w.tags) badges
      → MeansAnywhere timestamp_millis w
          (Message.global_user_state (global_state timestamp_millis w id name badges))

module _ {Time : Type 0} (timestamp_millis : ℤ → Option Time) (w : Whole) where
  pub from_irc-MeansAnywhere :
      (m : IrcMessage) (t : Message Time)
      → SaysWhole m w
      → MeansAnywhere timestamp_millis w t
      → from_irc timestamp_millis m ≡ done (some t)
  from_irc-MeansAnywhere m t says (of_channel p same means) =
      from_irc-Means timestamp_millis p m t (subst (λ w. SaysWhole m w) (sym same) says) means
  from_irc-MeansAnywhere m t says (pings nonce starts command params) =
      from_irc-ping timestamp_millis w m says nonce starts command params
  from_irc-MeansAnywhere m t says (answers nonce starts command params) =
      from_irc-pong timestamp_millis w m says nonce starts command params
  from_irc-MeansAnywhere m t says (reconnects command) =
      from_irc-reconnect timestamp_millis w m says command
  from_irc-MeansAnywhere m t says (addresses target text lacks starts command no_channel params) =
      from_irc-addressed timestamp_millis w m says target text lacks starts command no_channel
        params
  from_irc-MeansAnywhere m t says
        (whispers recipient sender text badges lacks command params login id name has) =
      from_irc-whispered timestamp_millis w m says recipient sender text badges lacks command params
        login id name has
  from_irc-MeansAnywhere m t says (holds_everywhere id name badges command is_id is_name has) =
      from_irc-global_state timestamp_millis w m says id name badges command is_id is_name has

  pub parse-MeansAnywhere :
      (v : Vector)
      → IsVector v
      → (addr : ℕ) (t : Message Time) → IsWhole w
      → MeansAnywhere timestamp_millis w t
      → parse timestamp_millis (Simd.parse v addr) (line w) ≡ done (some t)
  unfolding parse
  parse-MeansAnywhere v law addr t ok means =
      let (m, parsed, says) = parse-whole v law addr w ok in
      rw parsed (from_irc-MeansAnywhere m t says means)
