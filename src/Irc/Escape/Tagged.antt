-- ===== src/Irc/Escape/Tagged.antt =====
-- Escaped values of tags, against the tag parser. An ASCII text has its characters for bytes.
use tmi_rs.Prelude.{
  ℕ, ◌+◌, ◌^◌, ◌<◌, ◌≤◌, List, [], ◌∷◌, some, map, ◌≡◌, ◌≢◌, refl, ap, arith, length, All,
  All-append, done, ◌>>=◌,
}
use tmi_rs.Str.{Str, Lacks, StartsChar}
use tmi_rs.Irc.Escape.{raised_comma, unescape}
use tmi_rs.Irc.Escape.Agreement.{escape_char, escape, unescape-escape}
use tmi_rs.Irc.Tags.{TagPair, collect}
use tmi_rs.Irc.Tags.Scalar.{parse}
use tmi_rs.Irc.Tags.RoundTrip.{render, IsPair, line, parse-render}

abbrev pub IsAscii : Str → Type 0
IsAscii = All (λ c. c < 128)

-- What ends a value never stands in an escaped text.
escape_char-Lacks_semi : (c : ℕ) → Lacks b';' (escape_char c)
escape_char-Lacks_semi c = ground arith

escape_char-Lacks_space : (c : ℕ) → Lacks b' ' (escape_char c)
escape_char-Lacks_space c = ground arith

escape-Lacks_semi : (s : Str) → Lacks b';' (escape s)
escape-Lacks_semi [] = tt
escape-Lacks_semi (c ∷ s) =
    All-append (λ c. c ≢ b';') (escape_char c) (escape s) (escape_char-Lacks_semi c)
      (escape-Lacks_semi s)

escape-Lacks_space : (s : Str) → Lacks b' ' (escape s)
escape-Lacks_space [] = tt
escape-Lacks_space (c ∷ s) =
    All-append (λ c. c ≢ b' ') (escape_char c) (escape s) (escape_char-Lacks_space c)
      (escape-Lacks_space s)

escape-StartsChar : (s : Str) → IsAscii s → StartsChar (escape s)
escape-StartsChar [] h = tt
escape-StartsChar (c ∷ s) h = ground arith

no_raised_comma : (s : Str) → IsAscii s → All (λ c. c ≢ raised_comma) s
no_raised_comma [] h = tt
no_raised_comma (c ∷ s) h = (omega (arith, h.0), no_raised_comma s h.1)

abbrev pub escaped : List (Str × Str) → List (Str × Str)
escaped = map (λ kv. (kv.0, escape kv.1))

abbrev pub unescaped : List (Str × Str) → List (Str × Str)
unescaped = map (λ kv. (kv.0, unescape kv.1))

length-escaped : (kvs : List (Str × Str)) → length (escaped kvs) ≡ length kvs
length-escaped [] = refl
length-escaped (kv ∷ kvs) = omega (arith, length-escaped kvs)

-- A key that can be written, and any ASCII value that is not too long.
abbrev pub CanEscape : Str × Str → Type 0
CanEscape (k, v) =
    (Lacks b'=' k × Lacks b' ' k × StartsChar k × (length k < 2 ^ 16))
    × (IsAscii v × (length (escape v) < 2 ^ 16))

escaped-IsPair : (kvs : List (Str × Str)) → All CanEscape kvs → All IsPair (escaped kvs)
escaped-IsPair [] h = tt
escaped-IsPair ((k, v) ∷ kvs) h = (
  (h.0.0, (escape-Lacks_semi v, escape-Lacks_space v, escape-StartsChar v h.0.1.0, h.0.1.1)),
  escaped-IsPair kvs h.1,
)

unescaped-escaped : (kvs : List (Str × Str)) → All CanEscape kvs → unescaped (escaped kvs) ≡ kvs
unescaped-escaped [] h = refl
unescaped-escaped ((k, v) ∷ kvs) h =
    rw (unescape-escape v (no_raised_comma v h.0.1.0), unescaped-escaped kvs h.1) refl

-- At most 128 tags with any ASCII values, escaped and written behind `@` with a space after them,
-- are read by the tag parser, and unescaping what is read gives the tags back in order. A key holds
-- no `=` or space, begins no character in its middle and is shorter than 2 ^ 16, as is an escaped
-- value; the line is shorter than 2 ^ 32.
pub parse-escaped :
    (kvs : List (Str × Str)) (t : Str)
    → All CanEscape kvs
    → length kvs ≤ 128
    → length (line (escaped kvs) t) < 2 ^ 32
    → (tags : List TagPair) × (parse (line (escaped kvs) t) 0
        ≡ done (some tags, length (render (escaped kvs)) + 2))
      × ((collect (line (escaped kvs) t) tags >>= λ read. done (unescaped read)) ≡ done kvs)
parse-escaped kvs t ok few fits =
    let (tags, parsed, read) =
      parse-render (escaped kvs) t (escaped-IsPair kvs ok) (omega (arith, length-escaped kvs))
        fits in
    (tags, parsed, rw read (ap done (unescaped-escaped kvs ok)))
