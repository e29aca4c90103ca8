-- ===== src/Irc/Prefix.antt =====
-- irc/prefix.rs: the parser of `:nick!user@host <rest>`, and the printer of a prefix.
pub mod RoundTrip
pub mod Bounds
pub mod Total
use tmi_rs.Prelude.{
  ℕ, ◌+◌, [], ◌∷◌, ◌++◌, Option, none, some, ◌==◌, if◌then◌else◌, drop, Outcome, done, ◌>>=◌,
}
use tmi_rs.Str.{Str, codes, starts_with, slice_from}
use tmi_rs.Irc.Span.{Span, from, index}

pub record RawPrefix : Type 0 where
  pub nick : Option Span
  pub user : Option Span
  pub host : Span

pub record Prefix : Type 0 where
  pub nick : Option Str
  pub user : Option Str
  pub host : Str

unfoldable pub index_option : Str → Option Span → Outcome (Option Str)
index_option src none = done none
index_option src (some span) = do s ← index src span; done (some s)

-- `RawPrefix::get`
unfoldable pub get : RawPrefix → Str → Outcome Prefix
unfolding index_option
get raw src = do
  nick ← index_option src raw.nick
  user ← index_option src raw.user
  host ← index src raw.host
  done (record { nick = nick; user = user; host = host })

display_parts : Option Str → Option Str → Str → Str
display_parts (some nick) (some user) host = nick ++ (b'!' ∷ (user ++ (b'@' ∷ host)))
display_parts (some nick) none host = nick ++ (b'@' ∷ host)
display_parts none none host = host
display_parts none (some user) host = []

-- `impl Display for Prefix`
unfoldable pub display : Prefix → Str
unfolding display_parts
display p = display_parts p.nick p.user p.host

-- The mutable variables of the loop.
pub record Scan : Type 0 where
  pub host_start : ℕ
  pub nick : Option Span
  pub nick_end : Option ℕ
  pub user : Option Span

at_sign : ℕ → ℕ → Option ℕ → Scan → Scan
at_sign start i (some nick_end) s = record s {
  host_start = i + 1;
  user = some (from (nick_end + 1) i);
}
at_sign start i none s = record s { host_start = i + 1; nick = some (from start i) }

-- One round on a byte that is no space.
pub step : ℕ → ℕ → ℕ → Scan → Scan
unfolding at_sign
step start i c s =
    if c == b'@'
    then at_sign start i s.nick_end s
    else if c == b'!'
    then record s { nick = some (from start i); nick_end = some i }
    else s

-- The loop over `start..bytes.len()`, on the bytes from `i` on.
pub scan : ℕ → Str → ℕ → Scan → Option RawPrefix × ℕ
unfolding step
scan start [] i s = (none, i)
scan start (c ∷ cs) i s =
    if c == b' '
    then (some (record { nick = s.nick; user = s.user; host = from s.host_start i }), i + 1)
    else scan start cs (i + 1) (step start i c s)

-- Without a space the position stays.
pub settle : ℕ → Option RawPrefix × ℕ → Option RawPrefix × ℕ
settle pos (none, i) = (none, pos)
settle pos (some prefix, next) = (some prefix, next)

pub initial : ℕ → Scan
initial start = record { host_start = start; nick = none; nick_end = none; user = none }

unfoldable pub parse : Str → ℕ → Outcome (Option RawPrefix × ℕ)
unfolding scan settle initial
parse src pos = do
  rest ← slice_from src pos
  let start = pos + 1
  if starts_with (codes ":") rest
      then done (settle pos (scan start (drop start src) start (initial start)))
      else done (none, pos)
