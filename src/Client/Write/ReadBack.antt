-- ===== src/Client/Write/ReadBack.antt =====
-- A chat message that the client writes, against the line parser.
use tmi_rs.Prelude.{
  ℕ, suc, ◌+◌, ◌^◌, ◌<◌, [], ◌∷◌, ◌++◌, none, some, ◌≡◌, ◌≢◌, refl, ap, subst, ◌∙◌, arith,
  append_assoc, length, length-append, done,
}
use tmi_rs.Str.{
  Str, codes, find, slice_from, is_char_boundary, strip_prefix, starts_with, Lacks, StartsChar,
  lookup, slice,
}
use tmi_rs.Irc.Span.{from, index}
use tmi_rs.Irc.Span.Laws.{index_at}
use tmi_rs.Irc.Command as Commands
use tmi_rs.Irc.Command.{Command, RawCommand}
use tmi_rs.Irc.Prefix as Prefixes
use tmi_rs.Irc.Channel
use tmi_rs.Irc.Channel.Spans.{parse-channel, parse-params, index_params}
use tmi_rs.Irc.Tags.Scalar as Scalars
use tmi_rs.Irc.Message
use tmi_rs.Irc.Message.{IrcMessage}
use tmi_rs.Client.Write.{privmsg, body}
use tmi_rs.Client.Write.Builder

abbrev said : Str → Str → Str
said name text = codes "PRIVMSG #" ++ (name ++ (codes " :" ++ text))

body-privmsg :
    (name text : Str) → body (privmsg (Builder.privmsg (b'#' ∷ name) text)) ≡ said name text
unfolding body Builder.privmsg
body-privmsg name text = refl

parse_command :
    (rest : Str)
    → Commands.parse (codes "PRIVMSG " ++ b'#' ∷ rest) 0 ≡ done (some RawCommand.privmsg, 8)
unfolding Commands.parse Commands.classify lookup slice_from slice find is_char_boundary
parse_command rest = refl

no_tags : (rest : Str) → Scalars.parse (codes "PRIVMSG " ++ b'#' ∷ rest) 0 ≡ done (none, 0)
unfolding Scalars.parse slice_from is_char_boundary strip_prefix
no_tags rest = refl

no_prefix : (rest : Str) → Prefixes.parse (codes "PRIVMSG " ++ b'#' ∷ rest) 0 ≡ done (none, 0)
unfolding Prefixes.parse slice_from is_char_boundary starts_with
no_prefix rest = refl

behind_colon : (t : Str) → StartsChar t → slice_from (b':' ∷ t) 1 ≡ done t
unfolding slice_from is_char_boundary
behind_colon [] h = refl
behind_colon (c ∷ t) h = rw h refl

cons_ne_nil : (c : ℕ) (s : Str) → c ∷ s ≢ []
cons_ne_nil c s e = cc

module _ (name text : Str) where
  abbrev src : Str
  src = said name text

  abbrev to_params : Str
  to_params = codes "PRIVMSG #" ++ (name ++ codes " ")

  cut_params : src ≡ to_params ++ (b':' ∷ text)
  cut_params = simp append_assoc

  length-to_params : length to_params ≡ 8 + suc (length name) + 1
  length-to_params = omega (arith, length-append name (codes " "))

  length-src : length src ≡ length to_params + suc (length text)
  length-src = ap length cut_params ∙ length-append to_params (b':' ∷ text)

  -- A message to a channel is read back by the line parser as a PRIVMSG to that channel with that
  -- text. The name holds no space, the text begins no character in its middle, and the line is
  -- shorter than 2 ^ 32.
  pub parse-body :
      Lacks b' ' name
      → StartsChar text
      → length (body (privmsg (Builder.privmsg (b'#' ∷ name) text))) < 2 ^ 32
      → (m : IrcMessage) × (Message.parse Scalars.parse
            (body (privmsg (Builder.privmsg (b'#' ∷ name) text)))
          ≡ done (some m))
        × (Message.command m ≡ done Command.privmsg)
        × (Message.channel m ≡ done (some (b'#' ∷ name)))
        × (Message.text_owned m ≡ done (some text))
  unfolding body Builder.privmsg Message.parse Message.command Message.channel Message.channel_for
      Message.text_owned Message.params Commands.get Prefixes.index_option find
  parse-body lacks starts fits =
      let at_channel = from 8 (8 + suc (length name)) in
      let at_params = from (length to_params) (length src) in
      let found = parse-channel src (codes "PRIVMSG ") name (b':' ∷ text) refl lacks in
      let rest = parse-params src to_params (b':' ∷ text) cut_params refl (cons_ne_nil b':' text) in
      let rest' : Channel.parse_params src (8 + suc (length name) + 1) ≡ done (some at_params) =
        subst (λ n. Channel.parse_params src n ≡ done (some at_params)) length-to_params rest in
      let named : index src at_channel ≡ done (b'#' ∷ name) =
        index_at src (codes "PRIVMSG ") (b'#' ∷ name) (b' ' ∷ (b':' ∷ text)) _ _ refl refl refl refl
          refl (omega (arith, length-src, length-to_params)) in
      let said = index_params src to_params (b':' ∷ text) cut_params refl fits in
      (
        record {
          src = src;
          parts = record {
            tags = [];
            prefix = none;
            command = RawCommand.privmsg;
            channel = some at_channel;
            params = some at_params;
          };
        },
        rw
            (
              no_tags (name ++ b' ' ∷ (b':' ∷ text)),
              no_prefix (name ++ b' ' ∷ (b':' ∷ text)),
              parse_command (name ++ b' ' ∷ (b':' ∷ text)),
              found,
              rest',
            )
            refl,
        refl,
        rw named refl,
        rw (said, behind_colon text starts) refl,
      )
