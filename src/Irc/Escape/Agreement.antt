-- ===== src/Irc/Escape/Agreement.antt =====
-- The two functions against each other, and against the escapes that they undo.
use tmi_rs.Prelude.{
  ℕ, Bool, true, false, [], ◌∷◌, ◌++◌, ◌≡◌, ◌≢◌, refl, inl, inr, arith, ◌==◌, if◌then◌else◌,
  Bool-cases, All,
}
use tmi_rs.Irc.Escape.{
  Chars, raised_comma, carriage_return, line_feed, unescape_from, unescape, actually_unescape,
  maybe_unescape,
}

-- A character as Twitch escapes it.
abbrev pub escape_char : ℕ → Chars
escape_char c =
    if c == b';'
    then b'\\' ∷ b':' ∷ []
    else if c == b' '
    then b'\\' ∷ b's' ∷ []
    else if c == b'\\'
    then b'\\' ∷ b'\\' ∷ []
    else if c == carriage_return
    then b'\\' ∷ b'r' ∷ []
    else if c == line_feed
    then b'\\' ∷ b'n' ∷ []
    else c ∷ []

abbrev pub escape : Chars → Chars
escape [] = []
escape (c ∷ cs) = escape_char c ++ escape cs

-- No raised comma stands before the first backslash.
abbrev pub NoCommaBefore : Chars → Type 0
NoCommaBefore [] = Unit
NoCommaBefore (c ∷ cs) = (c ≢ raised_comma) × (c ≢ b'\\' → NoCommaBefore cs)

same_rounds : (e : Bool) (cs : Chars) → actually_unescape e cs ≡ unescape_from e cs
unfolding actually_unescape unescape_from
same_rounds e [] = refl
same_rounds e (c ∷ cs) = ground (arith, same_rounds true cs, same_rounds false cs, same_rounds e cs)

-- The two functions give the same text where no raised comma stands before the first backslash.
pub maybe_unescape-unescape : (cs : Chars) → NoCommaBefore cs → maybe_unescape cs ≡ unescape cs
unfolding maybe_unescape unescape unescape_from
maybe_unescape-unescape [] h = refl
maybe_unescape-unescape (c ∷ cs) h = elim (Bool-cases (c == b'\\')) [
  | inl t ↦ ground (arith, same_rounds true cs)
  | inr t ↦ ground (arith, maybe_unescape-unescape cs (h.1 (ground arith)))
]

-- Where there is no backslash, `maybe_unescape` changes nothing, a raised comma neither.
pub maybe_unescape_plain : (cs : Chars) → All (λ c. c ≢ b'\\') cs → maybe_unescape cs ≡ cs
unfolding maybe_unescape
maybe_unescape_plain [] h = refl
maybe_unescape_plain (c ∷ cs) h = ground (arith, maybe_unescape_plain cs h.1)

-- A text that holds no raised comma is given back when it is escaped and unescaped.
pub unescape-escape : (cs : Chars) → All (λ c. c ≢ raised_comma) cs → unescape (escape cs) ≡ cs
unfolding unescape unescape_from
unescape-escape [] h = refl
unescape-escape (c ∷ cs) h = ground (arith, unescape-escape cs h.1)
