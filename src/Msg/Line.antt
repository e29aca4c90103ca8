-- ===== src/Msg/Line.antt =====
-- msg/*.rs: the typed message of a line that is put together from its parts.
pub mod Values
pub mod Said
pub mod Replies
pub mod Chat
pub mod Moderation
pub mod Events
pub mod Notices
pub mod Members
pub mod Server
pub mod Meanings
pub mod Anywhere
use tmi_rs.Prelude.{Option, none, some, bind?, map?, [], ◌∷◌, ◌≡◌, refl, ap, sym, subst, ◌∙◌, done}
use tmi_rs.Prelude.Int.{ℤ}
use tmi_rs.Str.{Str, codes, find, slice_from, is_char_boundary, StartsChar}
use tmi_rs.Irc.Command as Commands
use tmi_rs.Irc.Command.{Command}
use tmi_rs.Irc.Command.Known.{IsKnown}
use tmi_rs.Irc.Prefix.{Prefix}
use tmi_rs.Irc.Tag as TagNames
use tmi_rs.Irc.Tag.{Tag}
use tmi_rs.Irc.Message
use tmi_rs.Irc.Message.{IrcMessage, or_empty}
use tmi_rs.Irc.Message.Whole.{Whole, SaysWhole}
use tmi_rs.Irc.Message.Lookup.{first_value, tag-tags}
use tmi_rs.Msg.Attempt.{◌>>=◌}
use tmi_rs.Msg.Badge.{unwrap_or}
use tmi_rs.Msg.Fields.{
  nick, timestamp_of, parse_timestamp, number_of, badges_of, zip_badges, color_of, emotes_of,
  not_empty, emote_sets_of, split_comma,
}
use tmi_rs.Msg.Fields.Ends.{timestamp_of-some}

pub behind_colon : (t : Str) → StartsChar t → slice_from (b':' ∷ t) 1 ≡ done t
unfolding slice_from is_char_boundary
behind_colon [] h = refl
behind_colon (c ∷ t) h = rw h refl

of_option :
    {A : Type 0} (o : Option Str) (read : Str → Option A)
    → (done o >>= λ v. done (read v)) ≡ done (bind? o read)
of_option none read = refl
of_option (some s) read = refl

of_prefix : (o : Option Prefix) → (done o >>= λ p. done p.nick) ≡ done (bind? o (λ p. p.nick))
of_prefix none = refl
of_prefix (some p) = refl

module _ (m : IrcMessage) (w : Whole) (says : SaysWhole m w) where
  -- The command is the known one with this name.
  pub command-known :
      (c : Command) → IsKnown c → Commands.as_str c ≡ w.command → Message.command m ≡ done c
  command-known c k e =
      let (c', got, named, known) = says.command_lem in got ∙ ap (λ c. done c) (known c k e)

  pub tag-first_value :
      (t : Tag) → Message.tag m t ≡ done (first_value (TagNames.as_str t) (or_empty w.tags))
  tag-first_value t = tag-tags m t (or_empty w.tags) says.tags_lem

  pub nick-prefix : nick m ≡ done (bind? w.prefix (λ p. p.nick))
  unfolding nick
  nick-prefix = rw says.prefix_lem (of_prefix w.prefix)

  pub text_ref-colon :
      (text : Str)
      → StartsChar text
      → w.params ≡ some (b':' ∷ text)
      → Message.text_ref m ≡ done (some text)
  unfolding Message.text_ref find
  text_ref-colon text starts e = rw (says.params_lem, e, behind_colon text starts) refl

  -- The sending time is read from its tag.
  pub timestamp_of-sent :
      {Time : Type 0} (timestamp_millis : ℤ → Option Time) (sent : Str) (time : Time)
      → first_value (codes "tmi-sent-ts") (or_empty w.tags) ≡ some sent
      → parse_timestamp timestamp_millis sent ≡ some time
      → timestamp_of timestamp_millis m ≡ done (some time)
  unfolding TagNames.as_str
  timestamp_of-sent timestamp_millis sent time tag read =
      timestamp_of-some timestamp_millis m sent time
        (tag-first_value TagNames.tmi_sent_ts ∙ ap done tag) read

  -- A tag that is read further, with `?` or without.
  pub number_of-first_value :
      {A : Type 0} (read : Str → Option A) (t : Tag)
      → number_of read m t ≡ done (bind? (first_value (TagNames.as_str t) (or_empty w.tags)) read)
  number_of-first_value read t =
      rw (tag-first_value t) (of_option (first_value (TagNames.as_str t) (or_empty w.tags)) read)

  pub badges_of-first_value :
      badges_of m
      ≡ done (
          some (
            zip_badges
              (first_value (codes "badges") (or_empty w.tags))
              (first_value (codes "badge-info") (or_empty w.tags))))
  unfolding badges_of TagNames.as_str
  badges_of-first_value =
      rw (tag-first_value TagNames.badges, tag-first_value TagNames.badge_info) refl

  pub color_of-first_value :
      color_of m ≡ done (some (not_empty (first_value (codes "color") (or_empty w.tags))))
  unfolding color_of TagNames.as_str
  color_of-first_value = rw (tag-first_value TagNames.color) refl

  pub emotes_of-first_value :
      emotes_of m ≡ done (some (unwrap_or [] (first_value (codes "emotes") (or_empty w.tags))))
  unfolding emotes_of TagNames.as_str
  emotes_of-first_value = rw (tag-first_value TagNames.emotes) refl

  pub emote_sets_of-first_value :
      emote_sets_of m
      ≡ done (
          some
            (unwrap_or [] (map? (first_value (codes "emote-sets") (or_empty w.tags)) split_comma)))
  unfolding emote_sets_of TagNames.as_str
  emote_sets_of-first_value = rw (tag-first_value TagNames.emote_sets) refl
