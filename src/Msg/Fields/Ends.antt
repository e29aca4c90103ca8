-- ===== src/Msg/Fields/Ends.antt =====
-- The shared parts on lines that keep the invariant.
use tmi_rs.Prelude.{Option, some, ◌≡◌, refl, done}
use tmi_rs.Prelude.Int.{ℤ}
use tmi_rs.Str.{Str}
use tmi_rs.Irc.Command.{Command}
use tmi_rs.Irc.Command.Equality.{eq_iff}
use tmi_rs.Irc.Tag.{Tag, tmi_sent_ts}
use tmi_rs.Irc.Message as Lines
use tmi_rs.Irc.Message.{IrcMessage}
use tmi_rs.Irc.Message.Bounds.{WellFormed}
use tmi_rs.Irc.Message.Bounds.Accessors.{
  command-Returns, params-Returns, prefix-Returns, channel-Returns, tag-Returns, text_ref-Returns,
}
use tmi_rs.Msg.Attempt.Laws.{Ends, Returns-Ends, ends_rules, Succeeds, succeeds_rules}
use tmi_rs.Msg.Fields.{
  expect, nick, badges_of, color_of, emotes_of, emote_sets_of, timestamp_of, parse_timestamp,
}

module _ (m : IrcMessage) (ok : WellFormed m) where
  pub command-Ends : Ends (Lines.command m)
  command-Ends = Returns-Ends (command-Returns m ok)

  pub params-Ends : Ends (Lines.params m)
  params-Ends = Returns-Ends (params-Returns m ok)

  pub prefix-Ends : Ends (Lines.prefix m)
  prefix-Ends = Returns-Ends (prefix-Returns m ok)

  pub channel-Ends : Ends (Lines.channel m)
  channel-Ends = Returns-Ends (channel-Returns m ok)

  pub tag-Ends : (t : Tag) → Ends (Lines.tag m t)
  tag-Ends t = Returns-Ends (tag-Returns m ok t)

  pub text_ref-Ends : Ends (Lines.text_ref m)
  text_ref-Ends = Returns-Ends (text_ref-Returns m ok)

  pub ruleset accessor_rules =
      (ends_rules, command-Ends, params-Ends, prefix-Ends, channel-Ends, tag-Ends, text_ref-Ends)

  pub expect-Ends : (c : Command) → Ends (expect m c)
  unfolding expect
  expect-Ends c = search accessor_rules

  pub nick-Ends : Ends (nick m)
  unfolding nick
  nick-Ends = search accessor_rules

  pub badges_of-Ends : Ends (badges_of m)
  unfolding badges_of
  badges_of-Ends = search accessor_rules

  pub color_of-Ends : Ends (color_of m)
  unfolding color_of
  color_of-Ends = search accessor_rules

  pub emotes_of-Ends : Ends (emotes_of m)
  unfolding emotes_of
  emotes_of-Ends = search accessor_rules

  pub emote_sets_of-Ends : Ends (emote_sets_of m)
  unfolding emote_sets_of
  emote_sets_of-Ends = search accessor_rules

  pub timestamp_of-Ends :
      {Time : Type 0} (timestamp_millis : ℤ → Option Time) → Ends (timestamp_of timestamp_millis m)
  unfolding timestamp_of
  timestamp_of-Ends timestamp_millis = search accessor_rules

  pub ruleset field_rules = (
    accessor_rules, expect-Ends, nick-Ends, badges_of-Ends, color_of-Ends, emotes_of-Ends,
    emote_sets_of-Ends, timestamp_of-Ends,
  )

  pub badges_of-Succeeds : Succeeds (badges_of m)
  unfolding badges_of
  badges_of-Succeeds = search (accessor_rules, succeeds_rules) depth 20

  pub color_of-Succeeds : Succeeds (color_of m)
  unfolding color_of
  color_of-Succeeds = search (accessor_rules, succeeds_rules) depth 20

  pub emotes_of-Succeeds : Succeeds (emotes_of m)
  unfolding emotes_of
  emotes_of-Succeeds = search (accessor_rules, succeeds_rules) depth 20

-- The shared parts where what they read is known.
pub timestamp_of-some :
    {Time : Type 0} (timestamp_millis : ℤ → Option Time) (m : IrcMessage) (s : Str) (t : Time)
    → Lines.tag m tmi_sent_ts ≡ done (some s)
    → parse_timestamp timestamp_millis s ≡ some t
    → timestamp_of timestamp_millis m ≡ done (some t)
unfolding timestamp_of
timestamp_of-some timestamp_millis m s t tag read = rw (tag, read) refl

pub expect-some :
    (m : IrcMessage) (c : Command) → Lines.command m ≡ done c → expect m c ≡ done (some tt)
unfolding expect
expect-some m c e = rw (e, (eq_iff c c).1 refl) refl
