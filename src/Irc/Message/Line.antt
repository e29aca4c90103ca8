-- ===== src/Irc/Message/Line.antt =====
-- A line with all of its parts, and what the parsed message says of them.
use tmi_rs.Prelude.{ℕ, ◌^◌, ◌<◌, ◌≤◌, List, [], ◌∷◌, ◌++◌, some, ◌≡◌, ◌≢◌, length, All, done}
use tmi_rs.Str.{Str, codes, Lacks, StartsChar}
use tmi_rs.Irc.Prefix as Prefixes
use tmi_rs.Irc.Prefix.{Prefix}
use tmi_rs.Irc.Prefix.RoundTrip.{AreParts, IsPart}
use tmi_rs.Irc.Wide.{Vector, IsVector}
use tmi_rs.Irc.Tags.RoundTrip.{IsPair, render}
use tmi_rs.Irc.Simd
use tmi_rs.Irc.Message.{IrcMessage, parse}
use tmi_rs.Irc.Message.Whole.{Whole, IsWhole, SaysWhole}
use tmi_rs.Irc.Message.Whole.Parsed.{parse-whole}

-- The parts of a line.
pub record Parts : Type 0 where
  pub tags : List (Str × Str)
  pub prefix : Prefix
  pub command : Str
  pub channel : Str
  pub params : Str

-- `@tags :prefix COMMAND #channel params`
abbrev pub line : Parts → Str
line p =
    b'@'
    ∷ (render p.tags
        ++ b' '
          ∷ (b':'
              ∷ (Prefixes.display p.prefix
                  ++ b' ' ∷ (p.command ++ b' ' ∷ (b'#' ∷ (p.channel ++ b' ' ∷ p.params))))))

-- The bounds and the separators: at most 128 tags with keys and values shorter than 2 ^ 16 bytes, a
-- command that is not one of the two whose channel stands in the params, no part holds what ends it
-- or begins in the middle of a character, a user of a prefix has a nick, the command and the params
-- are not empty, and the line is shorter than 2 ^ 32 bytes.
pub record IsLine (p : Parts) : Type 0 where
  pub pairs : All IsPair p.tags
  pub few : length p.tags ≤ 128
  pub names : AreParts p.prefix.nick p.prefix.user
  pub host : IsPart p.prefix.host
  pub word : Lacks b' ' p.command
  pub word_ne_nil : p.command ≢ []
  pub word_starts : StartsChar p.command
  pub not_names : p.command ≢ codes "353"
  pub not_end_of_names : p.command ≢ codes "366"
  pub channel_word : Lacks b' ' p.channel
  pub params_ne_nil : p.params ≢ []
  pub params_start : StartsChar p.params
  pub fits : length (line p) < 2 ^ 32

abbrev pub whole : Parts → Whole
whole p = record {
  tags = some p.tags;
  prefix = some p.prefix;
  command = p.command;
  channel = some p.channel;
  params = some p.params;
}

-- What a parsed message says of the parts.
abbrev pub Says : IrcMessage → Parts → Type 0
Says m p = SaysWhole m (whole p)

pub IsWhole-whole : (p : Parts) → IsLine p → IsWhole (whole p)
IsWhole-whole p ok = record {
  pairs = ok.pairs;
  few = ok.few;
  source = (ok.names, ok.host);
  word = ok.word;
  word_ne_nil = ok.word_ne_nil;
  word_starts = ok.word_starts;
  behind = tt;
  not_names = ok.not_names;
  not_end_of_names = ok.not_end_of_names;
  ends = (ok.channel_word, ok.params_ne_nil, ok.params_start);
  fits = ok.fits;
}

-- A line that is put together from its parts is parsed, by every vector that keeps the contract
-- and at every address, to a message that gives back the tags, the prefix, the command's text,
-- the channel with its `#`, and the params. `IsLine` lists the bounds and the separators.
pub parse-line :
    (v : Vector)
    → IsVector v
    → (addr : ℕ) (p : Parts) → IsLine p
    → (m : IrcMessage) × (parse (Simd.parse v addr) (line p) ≡ done (some m)) × Says m p
parse-line v law addr p ok = parse-whole v law addr (whole p) (IsWhole-whole p ok)
