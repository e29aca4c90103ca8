-- ===== src/Irc/Escape.antt =====
-- irc.rs and lib.rs: the two functions that unescape a tag's value. A text is the list of its
-- characters here, each the number of its code point.
pub mod Agreement
pub mod Tagged
use tmi_rs.Prelude.{ℕ, Bool, true, false, ◌&&◌, List, [], ◌∷◌, ◌==◌, if◌then◌else◌}

abbrev pub Chars : Type 0
Chars = List ℕ

-- U+2E1D, which Twitch sends for a comma.
abbrev pub raised_comma : ℕ
raised_comma = 0x2e1d

abbrev pub carriage_return : ℕ
carriage_return = 13

abbrev pub line_feed : ℕ
line_feed = 10

-- The rounds of `unescape` from here on, after a backslash if `escape` holds.
unfoldable pub unescape_from : Bool → Chars → Chars
unescape_from escape [] = []
unescape_from escape (c ∷ cs) =
    let plain = unescape_from false cs in
    let same = unescape_from escape cs in
    let escaped = unescape_from true cs in
    if c == b':' && escape
    then b';' ∷ plain
    else if c == b's' && escape
    then b' ' ∷ plain
    else if c == b'\\' && escape
    then b'\\' ∷ plain
    else if c == b'r' && escape
    then carriage_return ∷ plain
    else if c == b'n' && escape
    then line_feed ∷ plain
    else if c == raised_comma
    then b',' ∷ same
    else if c == b'\\'
    then escaped
    else c ∷ same

-- `unescape` of irc.rs
unfoldable pub unescape : Chars → Chars
unfolding unescape_from
unescape value = unescape_from false value

-- The rounds of `actually_unescape` of lib.rs, whose arms stand in another order.
unfoldable pub actually_unescape : Bool → Chars → Chars
actually_unescape escape [] = []
actually_unescape escape (c ∷ cs) =
    let plain = actually_unescape false cs in
    let same = actually_unescape escape cs in
    let escaped = actually_unescape true cs in
    if c == b'\\' && escape
    then b'\\' ∷ plain
    else if c == b'\\'
    then escaped
    else if c == b':' && escape
    then b';' ∷ plain
    else if c == b's' && escape
    then b' ' ∷ plain
    else if c == b'r' && escape
    then carriage_return ∷ plain
    else if c == b'n' && escape
    then line_feed ∷ plain
    else if c == raised_comma
    then b',' ∷ same
    else c ∷ same

-- `maybe_unescape` of lib.rs: what stands before the first backslash is kept as it is.
unfoldable pub maybe_unescape : Chars → Chars
unfolding actually_unescape
maybe_unescape [] = []
maybe_unescape (c ∷ cs) =
    let rest = maybe_unescape cs in
    if c == b'\\' then actually_unescape false (c ∷ cs) else c ∷ rest
