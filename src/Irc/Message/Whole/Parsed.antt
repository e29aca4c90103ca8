-- ===== src/Irc/Message/Whole/Parsed.antt =====
-- The parser on a whole line, part by part.
use tmi_rs.Prelude.{
  ℕ, String, ◌+◌, ◌^◌, ◌<◌, List, Option, [], ◌++◌, none, some, ◌≡◌, ◌≢◌, refl, sym, ap, ◌∙◌, arith,
  append_assoc, length, length-append, done,
}
use tmi_rs.Str.{Str, codes}
use tmi_rs.Irc.Span.{Span}
use tmi_rs.Irc.Command as Commands
use tmi_rs.Irc.Command.{Command, RawCommand}
use tmi_rs.Irc.Command.Last.{Names}
use tmi_rs.Irc.Channel
use tmi_rs.Irc.Channel.Tail.{FirstNot, tail, gap, Reads, read_tail}
use tmi_rs.Irc.Prefix as Prefixes
use tmi_rs.Irc.Prefix.{Prefix, RawPrefix}
use tmi_rs.Irc.Tags.{TagPair}
use tmi_rs.Irc.Wide.{Vector, IsVector}
use tmi_rs.Irc.Simd
use tmi_rs.Irc.Message.{
  IrcMessage, TagParser, or_empty, parse, tags, prefix, prefix_of, command, params, channel,
  channel_for,
}
use tmi_rs.Irc.Message.Whole.Pieces.{
  StartsChar-word, FirstNot-word, read_command, prefix_part, prefixed-append, read_prefix,
  tags_part, tagged-append, read_tags,
}
use tmi_rs.Irc.Message.Whole.{Whole, prefixed, line, IsBehind, IsWhole, SaysWhole}

colon_behind :
    (tags : Option (List (Str × Str))) (o : Option Prefix) (word rest : Str)
    → word ≢ []
    → IsBehind tags o word
    → o ≡ none
    → FirstNot b':' (word ++ rest)
colon_behind tags (some p) word rest ne h e = cc
colon_behind (some kvs) none word rest ne h e = FirstNot-word b':' word rest ne h
colon_behind none none word rest ne h e = FirstNot-word b':' word rest ne h.1

at_behind :
    (tags : Option (List (Str × Str))) (o : Option Prefix) (word rest : Str)
    → word ≢ []
    → IsBehind tags o word
    → tags ≡ none
    → FirstNot b'@' (prefixed o (word ++ rest))
at_behind (some kvs) o word rest ne h e = cc
at_behind none (some p) word rest ne h e = omega arith
at_behind none none word rest ne h e = FirstNot-word b'@' word rest ne h.0

pub channel_for-parts :
    (m : IrcMessage) (c : Command)
    → Commands.as_str c ≢ codes "353"
    → Commands.as_str c ≢ codes "366"
    → channel_for m c ≡ Prefixes.index_option m.src m.parts.channel
unfolding channel_for Commands.as_str
channel_for-parts m Command.rpl_names h h' = absurd (h refl)
channel_for-parts m Command.rpl_end_of_names h h' = absurd (h' refl)
channel_for-parts m _ h h' = refl

-- The parser, when each of its parts has returned.
parse_steps :
    (parse_tags : TagParser) (src : Str) (ts : Option (List TagPair)) (rp : Option RawPrefix)
    (rc : RawCommand) (ch ps : Option Span) (p1 p2 p3 p4 : ℕ)
    → parse_tags src 0 ≡ done (ts, p1)
    → Prefixes.parse src p1 ≡ done (rp, p2)
    → Commands.parse src p2 ≡ done (some rc, p3)
    → Channel.parse src p3 ≡ done (ch, p4)
    → Channel.parse_params src p4 ≡ done ps
    → parse parse_tags src
      ≡ done (
          some (record {
            src = src;
            parts = record {
              tags = or_empty ts;
              prefix = rp;
              command = rc;
              channel = ch;
              params = ps;
            };
          }))
unfolding parse
parse_steps parse_tags src ts rp rc ch ps p1 p2 p3 p4 h1 h2 h3 h4 h5 = rw (h1, h2, h3, h4, h5) refl

-- The line, cut in front of each part.
module _ (w : Whole) (ok : IsWhole w) where
  abbrev behind : Str
  behind = w.command ++ tail w.channel w.params

  abbrev to_prefix : Str
  to_prefix = tags_part w.tags

  abbrev to_command : Str
  to_command = to_prefix ++ prefix_part w.prefix

  abbrev to_tail : Str
  to_tail = to_command ++ w.command

  cut_prefix : line w ≡ to_prefix ++ prefixed w.prefix behind
  cut_prefix = tagged-append w.tags (prefixed w.prefix behind)

  cut_command : line w ≡ to_command ++ behind
  cut_command =
      cut_prefix
      ∙ ap (λ s. to_prefix ++ s) (prefixed-append w.prefix behind)
      ∙ sym (append_assoc to_prefix (prefix_part w.prefix) behind)

  cut_tail : line w ≡ to_tail ++ tail w.channel w.params
  cut_tail = cut_command ∙ sym (append_assoc to_command w.command (tail w.channel w.params))

  length-to_tail : length to_tail ≡ length to_command + length w.command
  length-to_tail = length-append to_command w.command

  length-to_command : length to_command ≡ length to_prefix + length (prefix_part w.prefix)
  length-to_command = length-append to_prefix (prefix_part w.prefix)

  to_tail_fits : length to_tail < 2 ^ 32
  to_tail_fits =
      omega (arith, ok.fits, ap length cut_tail, length-append to_tail (tail w.channel w.params))

  whole_prefix :
      (raw : Option RawPrefix) × (Prefixes.parse (line w) (length to_prefix)
        ≡ done (raw, length to_command))
      × (prefix_of (line w) raw ≡ done w.prefix)
  whole_prefix =
      let (raw, parsed, got) =
        read_prefix w.prefix to_prefix behind ok.source
          (StartsChar-word w.command _ ok.word_ne_nil ok.word_starts)
          (colon_behind w.tags w.prefix w.command _ ok.word_ne_nil ok.behind)
          (omega (arith, to_tail_fits, length-to_tail, length-to_command)) in
      (raw, rw cut_prefix parsed, rw cut_prefix got)

  whole_command :
      Names (line w) (length to_command) w.command (length to_tail + gap w.channel w.params)
  whole_command =
      rw (cut_command, length-to_tail)
        (read_command w.channel w.params to_command w.command ok.word ok.word_ne_nil ok.word_starts
          (omega (arith, to_tail_fits, length-to_tail)))

  whole_tail : Reads (line w) (length to_tail + gap w.channel w.params) w.channel w.params
  whole_tail =
      read_tail w.channel w.params (line w) to_tail (length to_tail + gap w.channel w.params)
        cut_tail refl ok.ends ok.fits

-- A line that is put together from its parts, of which every part but the command may be missing,
-- is parsed, by every vector that keeps the contract and at every address, to a message that gives
-- back the tags, the prefix, the command's text, the channel with its `#`, and the params, each
-- missing where it is missing in the line, if there are at most 128 tags, whose keys hold no `=`
-- and no space and whose values hold no `;` and no space, each shorter than 2 ^ 16 bytes; the parts
-- of a prefix hold no space, `@` or `!`, and a user stands only beside a nick; the command is not
-- empty, holds no space, is not 353 or 366, and does not begin with `:` where the prefix is
-- missing, nor with `@` where the tags are missing too; the channel holds no space; the params are
-- not empty and do not begin with `#` where the channel is missing; no part begins in the middle of
-- a character; and the line is shorter than 2 ^ 32 bytes.
pub parse-whole :
    (v : Vector)
    → IsVector v
    → (addr : ℕ) (w : Whole) → IsWhole w
    → (m : IrcMessage) × (parse (Simd.parse v addr) (line w) ≡ done (some m)) × SaysWhole m w
unfolding tags prefix command channel params
parse-whole v law addr w ok =
    let (ts, h1, texts) =
      read_tags v law addr w.tags (prefixed w.prefix (behind w ok)) ok.pairs ok.few
        (at_behind w.tags w.prefix w.command _ ok.word_ne_nil ok.behind) ok.fits in
    let (rp, h2, prefix_text) = whole_prefix w ok in
    let (rc, c, h3, command_text, named, known) = whole_command w ok in
    let (ch, next, ps, h4, h5, channel_text, params_text) = whole_tail w ok in
    let said : (word : String) → w.command ≢ codes word → Commands.as_str c ≢ codes word =
      λ word ne h. ne (sym named ∙ h) in
    (
      record {
        src = line w;
        parts = record { tags = or_empty ts; prefix = rp; command = rc; channel = ch; params = ps };
      },
      parse_steps (Simd.parse v addr) (line w) ts rp rc ch ps _ _ _ _ h1 h2 h3 h4 h5,
      record {
        tags_lem = texts;
        prefix_lem = prefix_text;
        command_lem = (c, command_text, named, known);
        channel_lem = rw command_text (
            channel_for-parts _ c (said "353" ok.not_names) (said "366" ok.not_end_of_names)
            ∙ channel_text);
        params_lem = params_text;
      },
    )
