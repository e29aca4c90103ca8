-- ===== src/Examples.antt =====
-- Runs of the model on lines that the library's own tests hold, and instances of the theorems.
mod Parsing
mod Messages
mod Clients
mod Tls
mod Typed
mod Notices
mod Lines
mod Rounds
mod Long
mod Session
mod Badges
use tmi_rs.Prelude.{[], ◌∷◌, ◌≡◌, refl, none, some, Outcome, done, panicked, ◌>>=◌, List, Option}
use tmi_rs.Str.{
  Str, codes, slice, slice_from, is_char_boundary, strip_prefix, starts_with, find, eq, lookup,
}
use tmi_rs.Str.Words.{nth_word}
use tmi_rs.Irc.Span as Spans
use tmi_rs.Irc.Prefix as Prefixes
use tmi_rs.Irc.Command as Commands
use tmi_rs.Irc.Channel
use tmi_rs.Irc.Tag as TagNames
use tmi_rs.Irc.Tags
use tmi_rs.Irc.Tags.Scalar
use tmi_rs.Irc.Message
use tmi_rs.Irc.Message.{IrcMessage}

-- A question about the message on a line.
ask {ℓ} : {A : Type ℓ} → Str → (IrcMessage → Outcome (Option A)) → Outcome (Option A)
unfolding Message.parse Scalar.parse slice slice_from is_char_boundary strip_prefix starts_with find
    eq Spans.index Spans.from Prefixes.parse Prefixes.get Prefixes.index_option Commands.parse
    Commands.classify lookup Commands.get Channel.parse Channel.parse_params TagNames.as_str
    TagNames.parse Tags.push Tags.key Tags.value nth_word Message.params Message.command
ask src f = Message.parse Scalar.parse src >>= λ o. elim o [ none ↦ done none | some m ↦ f m ]

notice_text :
    ask (codes ":tmi.twitch.tv NOTICE * :Improperly formatted auth") Message.text_ref
    ≡ done (some (codes "Improperly formatted auth"))
unfolding ask Message.text_ref
notice_text = refl

join_prefix :
    ask (codes ":a!b@c.tmi.twitch.tv JOIN #riotgames") Message.prefix
    ≡ done (
        some (record {
          nick = some (codes "a");
          user = some (codes "b");
          host = codes "c.tmi.twitch.tv";
        }))
unfolding ask Message.prefix
join_prefix = refl

names_channel :
    ask (codes ":j.tmi.twitch.tv 353 justinfan123456 = #pajlada :a b c") Message.channel
    ≡ done (some (codes "#pajlada"))
unfolding ask Message.channel Message.channel_for
names_channel = refl

equals_in_value :
    ask
      (codes "@a=;b=u?list=P;c=0 :d!d@d PRIVMSG #anny :hi")
      (λ m. Message.tag m (TagNames.parse (codes "b")))
    ≡ done (some (codes "u?list=P"))
unfolding ask Message.tag Scalar.loop
equals_in_value = refl
