-- ===== src/Client/Write/Said.antt =====
-- A chat message behind its tags, as the line parser reads it.
use tmi_rs.Prelude.{
  ℕ, ◌^◌, ◌<◌, ◌≤◌, List, [], ◌∷◌, Option, none, some, ◌≡◌, ◌≢◌, refl, arith, length, All, done,
}
use tmi_rs.Str.{Str, codes, find, Lacks, StartsChar}
use tmi_rs.Irc.Command as Commands
use tmi_rs.Irc.Command.{Command}
use tmi_rs.Irc.Tag as TagNames
use tmi_rs.Irc.Tags.RoundTrip.{IsPair}
use tmi_rs.Irc.Wide.{Vector, IsVector}
use tmi_rs.Irc.Simd
use tmi_rs.Irc.Message
use tmi_rs.Irc.Message.{IrcMessage, TagParser, or_empty}
use tmi_rs.Irc.Message.Lookup.{first_value}
use tmi_rs.Irc.Message.Whole.{Whole, IsBehind, IsWhole, SaysWhole, line}
use tmi_rs.Irc.Message.Whole.Parsed.{parse-whole}
use tmi_rs.Msg.Line.{behind_colon, command-known, tag-first_value}

-- The parts of a chat message that a client writes.
abbrev pub said : Option (List (Str × Str)) → Str → Str → Whole
said tags name text = record {
  tags = tags;
  prefix = none;
  command = codes "PRIVMSG";
  channel = some name;
  params = some (b':' ∷ text);
}

-- What a message says that is read back.
pub record Heard (m : IrcMessage) (channel text : Str) (reply nonce : Option Str) : Type 0 where
  pub command : Message.command m ≡ done Command.privmsg
  pub channel_lem : Message.channel m ≡ done (some channel)
  pub text_lem : Message.text_owned m ≡ done (some text)
  pub reply_lem : Message.tag m TagNames.reply_parent_msg_id ≡ done reply
  pub nonce_lem : Message.tag m TagNames.client_nonce ≡ done nonce

-- The line is read as a message that says this.
abbrev pub IsHeard : TagParser → Str → Str → Str → Option Str → Option Str → Type 0
IsHeard parse_tags src channel text reply nonce =
    (m : IrcMessage) × (Message.parse parse_tags src ≡ done (some m))
    × Heard m channel text reply nonce

abbrev pub reply_key : Str
reply_key = codes "reply-parent-msg-id"

abbrev pub nonce_key : Str
nonce_key = codes "client-nonce"

cons_ne_nil : (c : ℕ) (s : Str) → c ∷ s ≢ []
cons_ne_nil c s e = cc

behind_tags : (tags : Option (List (Str × Str))) → IsBehind tags none (codes "PRIVMSG")
behind_tags none = omega arith
behind_tags (some kvs) = omega arith

IsWhole-said :
    (tags : Option (List (Str × Str))) (name text : Str)
    → All IsPair (or_empty tags)
    → length (or_empty tags) ≤ 128
    → Lacks b' ' name
    → StartsChar text
    → length (line (said tags name text)) < 2 ^ 32
    → IsWhole (said tags name text)
IsWhole-said tags name text pairs few lacks starts fits = record {
  pairs = pairs;
  few = few;
  source = tt;
  word = omega arith;
  word_ne_nil = cons_ne_nil b'P' _;
  word_starts = refl;
  behind = behind_tags tags;
  not_names = λ e. cc;
  not_end_of_names = λ e. cc;
  ends = (lacks, cons_ne_nil b':' text, refl);
  fits = fits;
}

text_owned-colon :
    (m : IrcMessage) (w : Whole) (text : Str)
    → SaysWhole m w
    → StartsChar text
    → w.params ≡ some (b':' ∷ text)
    → Message.text_owned m ≡ done (some text)
unfolding Message.text_owned find
text_owned-colon m w text says starts e = rw (says.params_lem, e, behind_colon text starts) refl

pub said-IsHeard :
    (v : Vector)
    → IsVector v
    → (addr : ℕ) (tags : Option (List (Str × Str))) (name text : Str) → All IsPair (or_empty tags)
    → length (or_empty tags) ≤ 128
    → Lacks b' ' name
    → StartsChar text
    → length (line (said tags name text)) < 2 ^ 32
    → IsHeard
        (Simd.parse v addr)
        (line (said tags name text))
        (b'#' ∷ name)
        text
        (first_value reply_key (or_empty tags))
        (first_value nonce_key (or_empty tags))
unfolding Commands.as_str TagNames.as_str
said-IsHeard v law addr tags name text pairs few lacks starts fits =
    let w = said tags name text in
    let (m, parsed, says) =
      parse-whole v law addr w (IsWhole-said tags name text pairs few lacks starts fits) in
    (
      m,
      parsed,
      record {
        command = command-known m w says Commands.privmsg tt refl;
        channel_lem = says.channel_lem;
        text_lem = text_owned-colon m w text says starts refl;
        reply_lem = tag-first_value m w says TagNames.reply_parent_msg_id;
        nonce_lem = tag-first_value m w says TagNames.client_nonce;
      },
    )
