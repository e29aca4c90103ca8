-- ===== src/Client/Write/TagsReadBack.antt =====
-- A chat message that the client writes with tags, against the line parser.
use tmi_rs.Prelude.{
  ℕ, ◌^◌, ◌<◌, ◌≤◌, List, [], ◌∷◌, Option, none, some, IfSome, ◌≡◌, refl, sym, subst, arith,
  append_assoc, length, All,
}
use tmi_rs.Str.{Str, Lacks, StartsChar, eq}
use tmi_rs.Irc.Tags.RoundTrip.{IsPair}
use tmi_rs.Irc.Wide.{Vector, IsVector}
use tmi_rs.Irc.Simd
use tmi_rs.Irc.Message.{or_empty}
use tmi_rs.Irc.Message.Lookup.{first_value}
use tmi_rs.Irc.Message.Whole.{line}
use tmi_rs.Client.Write.{privmsg, body, privmsg_tags, is_some}
use tmi_rs.Client.Write.Builder
use tmi_rs.Client.Write.Builder.{built}
use tmi_rs.Client.Write.Said.{said, IsHeard, reply_key, nonce_key, said-IsHeard}

-- A value that can be written without being escaped.
abbrev pub IsValue : Str → Type 0
IsValue v = Lacks b';' v × Lacks b' ' v × StartsChar v × (length v < 2 ^ 16)

module _ (v : Vector) (law : IsVector v) (addr : ℕ) (name text : Str) (lacks : Lacks b' ' name)
    (starts : StartsChar text) where
  as_said-IsHeard :
      (tags : Option (List (Str × Str))) (src : Str)
      → line (said tags name text) ≡ src
      → All IsPair (or_empty tags)
      → length (or_empty tags) ≤ 128
      → length src < 2 ^ 32
      → IsHeard
          (Simd.parse v addr)
          src
          (b'#' ∷ name)
          text
          (first_value reply_key (or_empty tags))
          (first_value nonce_key (or_empty tags))
  as_said-IsHeard tags src same pairs few fits =
      subst
        (λ s.
          IsHeard (Simd.parse v addr) s (b'#' ∷ name) text (first_value reply_key (or_empty tags))
            (first_value nonce_key (or_empty tags)))
        same
        (said-IsHeard v law addr tags name text pairs few lacks starts
          (subst (λ s. length s < 2 ^ 32) (sym same) fits))

  reply-IsPair : (r : Str) → IsValue r → IsPair (reply_key, r)
  reply-IsPair r ok = ((omega arith, omega arith, refl, omega arith), ok)

  nonce-IsPair : (n : Str) → IsValue n → IsPair (nonce_key, n)
  nonce-IsPair n ok = ((omega arith, omega arith, refl, omega arith), ok)

  -- A chat message that the client writes, as a reply or not and with a nonce or not, is read back
  -- by the line parser, with every vector that keeps the contract, as a PRIVMSG to that channel
  -- with that text, that parent and that nonce. The channel's name holds no space, the text begins
  -- no character in its middle, the two tags' values hold neither a semicolon nor a space, begin
  -- no character in their middle and are shorter than 2 ^ 16, and the line is shorter than 2 ^ 32.
  pub parse-body_tags :
      (reply nonce : Option Str)
      → IfSome IsValue reply
      → IfSome IsValue nonce
      → length (body (privmsg (built (b'#' ∷ name) text reply nonce))) < 2 ^ 32
      → IsHeard
          (Simd.parse v addr)
          (body (privmsg (built (b'#' ∷ name) text reply nonce)))
          (b'#' ∷ name)
          text
          reply
          nonce
  unfolding body Builder.privmsg Builder.reply_to Builder.client_nonce privmsg_tags is_some eq
  parse-body_tags none none _ _ fits = as_said-IsHeard none _ refl tt (omega arith) fits
  parse-body_tags (some r) none r_ok _ fits =
      as_said-IsHeard (some ((reply_key, r) ∷ [])) _ (simp append_assoc) (reply-IsPair r r_ok, tt)
        (omega arith) fits
  parse-body_tags none (some n) _ n_ok fits =
      as_said-IsHeard (some ((nonce_key, n) ∷ [])) _ (simp append_assoc) (nonce-IsPair n n_ok, tt)
        (omega arith) fits
  parse-body_tags (some r) (some n) r_ok n_ok fits =
      as_said-IsHeard (some ((reply_key, r) ∷ (nonce_key, n) ∷ [])) _ (simp append_assoc)
        (reply-IsPair r r_ok, (nonce-IsPair n n_ok, tt)) (omega arith) fits
