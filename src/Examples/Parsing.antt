-- ===== src/Examples/Parsing.antt =====
-- Instances of the theorems on the line parser, on short lines.
use tmi_rs.Prelude.{
  ℕ, Bool, true, not, ◌&&◌, List, [], ◌∷◌, ◌++◌, none, some, ◌≡◌, ◌≢◌, ap, ◌∙◌, refl, arith, ◌==◌,
  length, All, done, panicked, ◌+◌, ◌^◌, ◌<◌,
}
use tmi_rs.Str.{Str, codes, Lacks, slice_from, is_char_boundary, find}
use tmi_rs.Irc.Command as Commands
use tmi_rs.Irc.Command.{Command, RawCommand}
use tmi_rs.Irc.Command.Known.{IsKnown}
use tmi_rs.Irc.Command.Names as CommandNames
use tmi_rs.Irc.Prefix as Prefixes
use tmi_rs.Irc.Prefix.{Prefix, RawPrefix}
use tmi_rs.Irc.Prefix.RoundTrip as PrefixRoundTrip
use tmi_rs.Irc.Prefix.RoundTrip.{IsName, IsPart}
use tmi_rs.Irc.Tag as TagNames
use tmi_rs.Irc.Tag.{msg_id}
use tmi_rs.Irc.Tag.Names
use tmi_rs.Irc.Tags.{TagPair, collect, in_key}
use tmi_rs.Irc.Tags.Scalar as Scalars
use tmi_rs.Irc.Tags.RoundTrip as TagsRoundTrip
use tmi_rs.Irc.Tags.RoundTrip.{IsPair, render}
use tmi_rs.Irc.Wide.{IsVector}
use tmi_rs.Irc.Wide.X86.{sse2, avx2, vector-IsVector}
use tmi_rs.Irc.Wide.Neon.{neon, neon-IsVector}
use tmi_rs.Irc.Simd
use tmi_rs.Irc.Simd.Agreement.{parse_scalar}
use tmi_rs.Irc.Simd.FindFirst.{find_first}
use tmi_rs.Irc.Simd.FindFirst.Correct.{find_first-find}
use tmi_rs.Irc.Simd.Chunk.{parse_chunk}
use tmi_rs.Irc.Simd.Chunk.Correct.{parse_chunk-run_bytes, run_bytes}
use tmi_rs.Irc.Message
use tmi_rs.Irc.Message.{IrcMessage}
use tmi_rs.Irc.Message.Unterminated.{parse_tags_only}
use tmi_rs.Str.Boundary.{IsText, ascii-IsText}
use tmi_rs.Irc.Message.Bounds.{WellFormed}
use tmi_rs.Irc.Message.Bounds.Parsed.{parse-WellFormed}
use tmi_rs.Irc.Message.Line as Lines
use tmi_rs.Irc.Message.Line.{IsLine, parse-line}
use tmi_rs.Irc.Message.Whole as Wholes
use tmi_rs.Irc.Message.Whole.{Whole, IsWhole, SaysWhole}
use tmi_rs.Irc.Message.Whole.Parsed.{parse-whole}

-- Decisions of the side conditions on texts.
lacks : ℕ → Str → Bool
lacks b [] = true
lacks b (c ∷ s) = not (c == b) && lacks b s

lacks-Lacks : (b : ℕ) (s : Str) → lacks b s ≡ true → Lacks b s
unfolding lacks
lacks-Lacks b [] h = tt
lacks-Lacks b (c ∷ s) h = (ground arith, lacks-Lacks b s (ground arith))

is_name : Str → Bool
is_name [] = true
is_name (c ∷ s) = (not (c == b' ') && (not (c == b'@') && not (c == b'!'))) && is_name s

is_name-IsName : (s : Str) → is_name s ≡ true → IsName s
unfolding is_name
is_name-IsName [] h = tt
is_name-IsName (c ∷ s) h =
    ((ground arith, ground arith, ground arith), is_name-IsName s (ground arith))

sse2-IsVector : IsVector sse2
sse2-IsVector = vector-IsVector 16 (omega arith) (omega arith)

abbrev kvs : List (Str × Str)
kvs = (codes "id", codes "a=b") ∷ (codes "bits", codes "") ∷ []

kvs-IsPair : All IsPair kvs
unfolding lacks
kvs-IsPair = (
  (
    (lacks-Lacks b'=' (codes "id") refl, lacks-Lacks b' ' (codes "id") refl, refl, omega arith),
    (lacks-Lacks b';' (codes "a=b") refl, lacks-Lacks b' ' (codes "a=b") refl, refl, omega arith),
  ),
  (
    (
      (
        lacks-Lacks b'=' (codes "bits") refl,
        lacks-Lacks b' ' (codes "bits") refl,
        refl,
        omega arith,
      ),
      (tt, tt, tt, omega arith),
    ),
    tt,
  ),
)

abbrev sender : Prefix
sender = record { nick = some (codes "a"); user = some (codes "b"); host = codes "c.tv" }

name_a : IsPart (codes "a")
unfolding is_name
name_a = (is_name-IsName (codes "a") refl, refl)

name_b : IsPart (codes "b")
unfolding is_name
name_b = (is_name-IsName (codes "b") refl, refl)

name_host : IsPart (codes "c.tv")
unfolding is_name
name_host = (is_name-IsName (codes "c.tv") refl, refl)

abbrev parts : Lines.Parts
parts = record {
  tags = kvs;
  prefix = sender;
  command = codes "PRIVMSG";
  channel = codes "foo";
  params = codes ":hi";
}

parts-IsLine : IsLine parts
unfolding lacks Prefixes.display
parts-IsLine = record {
  pairs = kvs-IsPair;
  few = omega arith;
  names = (name_a, name_b);
  host = name_host;
  word = lacks-Lacks b' ' (codes "PRIVMSG") refl;
  word_ne_nil = cc;
  word_starts = refl;
  not_names = cc;
  not_end_of_names = cc;
  channel_word = lacks-Lacks b' ' (codes "foo") refl;
  params_ne_nil = cc;
  params_start = refl;
  fits = omega arith;
}

-- A line that ends with its channel.
abbrev leaving : Whole
leaving = record {
  tags = none;
  prefix = some sender;
  command = codes "PART";
  channel = some (codes "foo");
  params = none;
}

leaving-IsWhole : IsWhole leaving
unfolding lacks Prefixes.display
leaving-IsWhole = record {
  pairs = tt;
  few = omega arith;
  source = ((name_a, name_b), name_host);
  word = lacks-Lacks b' ' (codes "PART") refl;
  word_ne_nil = cc;
  word_starts = refl;
  behind = tt;
  not_names = cc;
  not_end_of_names = cc;
  ends = lacks-Lacks b' ' (codes "foo") refl;
  fits = omega arith;
}

parse-whole_example :
    (m : IrcMessage) × (Message.parse (Simd.parse sse2 5) (Wholes.line leaving) ≡ done (some m))
    × SaysWhole m leaving
parse-whole_example = parse-whole sse2 sse2-IsVector 5 leaving leaving-IsWhole

line-IsText : IsText (Lines.line parts)
unfolding Prefixes.display
line-IsText = ascii-IsText (Lines.line parts) (omega arith)

line_short : length (Lines.line parts) < 2 ^ 16
unfolding Prefixes.display
line_short = omega arith

parse-WellFormed_example : WellFormed (parse-line sse2 sse2-IsVector 5 parts parts-IsLine).0
parse-WellFormed_example =
    parse-WellFormed (Lines.line parts) line-IsText line_short sse2 sse2-IsVector 5
      (parse-line sse2 sse2-IsVector 5 parts parts-IsLine).0
      (parse-line sse2 sse2-IsVector 5 parts parts-IsLine).1

tag_line_ends :
    (s : Str) → slice_from (codes "@id=a;vip=1 :x") 0 ≡ done (b'@' ∷ s) → find s b' ' ≢ none
unfolding slice_from is_char_boundary find
tag_line_ends s e f =
    let same : codes "id=a;vip=1 :x" ≡ s = cc in
    let missed : find (codes "id=a;vip=1 :x") b' ' ≡ none = ap (λ t. find t b' ') same ∙ f in cc

parse_scalar_example :
    Simd.parse neon 3 (codes "@id=a;vip=1 :x") 0 ≡ Scalars.parse (codes "@id=a;vip=1 :x") 0
parse_scalar_example = parse_scalar neon neon-IsVector 3 (codes "@id=a;vip=1 :x") 0 tag_line_ends

unterminated_slice : slice_from (codes "@id=a") 0 ≡ done (codes "@id=a")
unfolding slice_from is_char_boundary
unterminated_slice = refl

unterminated_find : find (codes "id=a") b' ' ≡ none
unfolding find
unterminated_find = refl

find_first-find_example :
    find_first sse2 7 (codes "a line that is longer than one vector") b'v'
    ≡ done (find (codes "a line that is longer than one vector") b'v')
find_first-find_example =
    find_first-find sse2 sse2-IsVector 7 (codes "a line that is longer than one vector") b'v'

parse_chunk-run_bytes_example :
    parse_chunk sse2 16 (codes "id=a;vip=1;bits=") (in_key 16) []
    ≡ run_bytes (codes "id=a;vip=1;bits=") 16 (in_key 16) []
parse_chunk-run_bytes_example =
    parse_chunk-run_bytes sse2 sse2-IsVector (codes "id=a;vip=1;bits=") 16 (in_key 16) [] refl

parse-render_example :
    (tags : List TagPair) × (Scalars.parse (TagsRoundTrip.line kvs (codes ":x")) 0
      ≡ done (some tags, length (render kvs) + 2))
    × (collect (TagsRoundTrip.line kvs (codes ":x")) tags ≡ done kvs)
parse-render_example =
    TagsRoundTrip.parse-render kvs (codes ":x") kvs-IsPair (omega arith) (omega arith)

parse-display_example :
    (raw : RawPrefix) × (Prefixes.parse (PrefixRoundTrip.line (codes "@x ") sender (codes "PING")) 3
      ≡ done (some raw, 3 + length (Prefixes.display sender) + 2))
    × (Prefixes.get raw (PrefixRoundTrip.line (codes "@x ") sender (codes "PING")) ≡ done sender)
unfolding Prefixes.display
parse-display_example =
    PrefixRoundTrip.parse-display (codes "@x ") sender (codes "PING") (name_a, name_b) name_host
      (omega arith)

hello_ne_nil : codes "HELLO" ≢ []
hello_ne_nil = cc

as_str-get_example :
    (raw : RawCommand) × (c : Command) × (Commands.parse
        (codes ":a " ++ (codes "HELLO" ++ b' ' ∷ codes "x"))
        3
      ≡ done (some raw, 9))
    × (Commands.get raw (codes ":a " ++ (codes "HELLO" ++ b' ' ∷ codes "x")) ≡ done c)
    × (Commands.as_str c ≡ codes "HELLO")
    × ((d : Command) → IsKnown d → Commands.as_str d ≡ codes "HELLO" → c ≡ d)
unfolding lacks
as_str-get_example =
    CommandNames.as_str-get (codes ":a ") (codes "HELLO") (codes "x")
      (lacks-Lacks b' ' (codes "HELLO") refl) (λ e. hello_ne_nil e) refl (omega arith)

as_str-parse_example : TagNames.as_str (TagNames.parse (codes "my-tag")) ≡ codes "my-tag"
as_str-parse_example = Names.as_str-parse (codes "my-tag") cc

vector-IsVector_example : IsVector avx2
vector-IsVector_example = vector-IsVector 32 (omega arith) (omega arith)

parse_tags_only_example : Message.parse Scalars.parse (codes "@id=a") ≡ panicked
unfolding lacks
parse_tags_only_example = parse_tags_only (codes "id=a") (lacks-Lacks b' ' (codes "id=a") refl)
