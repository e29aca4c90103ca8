-- ===== src/Irc/Message/Whole/Pieces.antt =====
-- The parsers of the tags, the prefix and the command on lines where each may be missing.
use tmi_rs.Prelude.{
  ℕ, ◌+◌, ◌^◌, ◌<◌, ◌≤◌, List, Option, [], ◌∷◌, ◌++◌, none, some, IfSome, ◌≡◌, ◌≢◌, refl, sym, ap,
  subst, ◌∙◌, arith, append_assoc, append-nil, length, length-append, All, done, done_inj,
}
use tmi_rs.Str.{Str, slice_from, is_char_boundary, strip_prefix, starts_with, Lacks, StartsChar}
use tmi_rs.Str.Laws.{slice_from-append}
use tmi_rs.Irc.Command.Names.{as_str-get}
use tmi_rs.Irc.Command.Last.{Names, as_str-get_last}
use tmi_rs.Irc.Channel.Tail.{FirstNot, tail, gap}
use tmi_rs.Irc.Prefix as Prefixes
use tmi_rs.Irc.Prefix.{Prefix, RawPrefix}
use tmi_rs.Irc.Prefix.RoundTrip.{parse-display}
use tmi_rs.Irc.Tags.{TagPair, collect}
use tmi_rs.Irc.Tags.Scalar as Scalars
use tmi_rs.Irc.Tags.RoundTrip.{IsPair, render, parse-render}
use tmi_rs.Irc.Wide.{Vector, IsVector}
use tmi_rs.Irc.Simd
use tmi_rs.Irc.Simd.Agreement.{parse_scalar}
use tmi_rs.Irc.Message.{or_empty, prefix_of}
use tmi_rs.Irc.Message.TooMany.{space_follows}
use tmi_rs.Irc.Message.Whole.{tagged, prefixed, IsPrefix}

pub StartsChar-word : (w rest : Str) → w ≢ [] → StartsChar w → StartsChar (w ++ rest)
StartsChar-word [] rest ne h = absurd (ne refl)
StartsChar-word (c ∷ w) rest ne h = h

pub FirstNot-word : (b : ℕ) (w rest : Str) → w ≢ [] → FirstNot b w → FirstNot b (w ++ rest)
FirstNot-word b [] rest ne h = absurd (ne refl)
FirstNot-word b (c ∷ w) rest ne h = h

-- A command with a space behind it, or with nothing.
pub read_command :
    (channel params : Option Str) (pre w : Str)
    → Lacks b' ' w
    → w ≢ []
    → StartsChar w
    → length pre + length w < 2 ^ 32
    → Names
        (pre ++ (w ++ tail channel params))
        (length pre)
        w
        (length pre + length w + gap channel params)
read_command none none pre w lacks ne starts fits =
    let same : pre ++ w ≡ pre ++ (w ++ []) = rw append-nil refl in
    let next : length pre + length w ≡ length pre + length w + 0 = omega arith in
    subst (λ n. Names (pre ++ (w ++ [])) (length pre) w n) next
      (subst (λ s. Names s (length pre) w (length pre + length w)) same
        (as_str-get_last pre w lacks ne starts fits))
read_command (some c) none pre w lacks ne starts fits =
    as_str-get pre w (b'#' ∷ c) lacks ne (StartsChar-word w _ ne starts) fits
read_command none (some ps) pre w lacks ne starts fits =
    as_str-get pre w ps lacks ne (StartsChar-word w _ ne starts) fits
read_command (some c) (some ps) pre w lacks ne starts fits =
    as_str-get pre w (b'#' ∷ (c ++ b' ' ∷ ps)) lacks ne (StartsChar-word w _ ne starts) fits

abbrev pub prefix_part : Option Prefix → Str
prefix_part none = []
prefix_part (some p) = b':' ∷ (Prefixes.display p ++ b' ' ∷ [])

pub prefixed-append : (o : Option Prefix) (rest : Str) → prefixed o rest ≡ prefix_part o ++ rest
prefixed-append none rest = refl
prefixed-append (some p) rest = simp append_assoc

no_prefix :
    (pre rest : Str)
    → StartsChar rest
    → FirstNot b':' rest
    → Prefixes.parse (pre ++ rest) (length pre) ≡ done (none, length pre)
unfolding Prefixes.parse starts_with
no_prefix pre [] starts other = rw (slice_from-append pre [] starts) refl
no_prefix pre (c ∷ rest) starts other = rw (slice_from-append pre (c ∷ rest) starts) (ground arith)

-- The prefix, if there is one.
pub read_prefix :
    (o : Option Prefix) (pre rest : Str)
    → IfSome IsPrefix o
    → StartsChar rest
    → (o ≡ none → FirstNot b':' rest)
    → length pre + length (prefix_part o) < 2 ^ 32
    → (raw : Option RawPrefix) × (Prefixes.parse (pre ++ prefixed o rest) (length pre)
        ≡ done (raw, length (pre ++ prefix_part o)))
      × (prefix_of (pre ++ prefixed o rest) raw ≡ done o)
unfolding prefix_of
read_prefix none pre rest ok starts other fits = (
  none,
  no_prefix pre rest starts (other refl) ∙ ap (λ s. done (none, length s)) (sym (append-nil pre)),
  refl,
)
read_prefix (some p) pre rest ok starts other fits =
    let size : length (b':' ∷ (Prefixes.display p ++ b' ' ∷ [])) ≡ length (Prefixes.display p) + 2 =
      omega (arith, length-append (Prefixes.display p) (b' ' ∷ [])) in
    let (raw, parsed, got) = parse-display pre p rest ok.0 ok.1 (omega (arith, size, fits)) in
    let next : length pre + length (Prefixes.display p) + 2
        ≡ length (pre ++ (b':' ∷ (Prefixes.display p ++ b' ' ∷ []))) =
      omega (arith, size, length-append pre (b':' ∷ (Prefixes.display p ++ b' ' ∷ []))) in
    (some raw, parsed ∙ ap (λ n. done (some raw, n)) next, rw got refl)

abbrev pub tags_part : Option (List (Str × Str)) → Str
tags_part none = []
tags_part (some kvs) = b'@' ∷ (render kvs ++ b' ' ∷ [])

pub tagged-append :
    (o : Option (List (Str × Str))) (rest : Str) → tagged o rest ≡ tags_part o ++ rest
tagged-append none rest = refl
tagged-append (some kvs) rest = simp append_assoc

module _ (v : Vector) (law : IsVector v) (addr : ℕ) where
  no_tags : (rest : Str) → FirstNot b'@' rest → Simd.parse v addr rest 0 ≡ done (none, 0)
  unfolding slice_from is_char_boundary Scalars.parse strip_prefix
  no_tags [] other = parse_scalar v law addr [] 0 (λ t e. let same = done_inj e in cc)
  no_tags (c ∷ rest) other =
      parse_scalar v law addr (c ∷ rest) 0
        (λ t e. let same = done_inj e in let first : c ≡ b'@' = cc in absurd (other first))
      ∙ ground arith

  -- The tags, if there are any.
  pub read_tags :
      (o : Option (List (Str × Str))) (rest : Str)
      → All IsPair (or_empty o)
      → length (or_empty o) ≤ 128
      → (o ≡ none → FirstNot b'@' rest)
      → length (tagged o rest) < 2 ^ 32
      → (ts : Option (List TagPair)) × (Simd.parse v addr (tagged o rest) 0
          ≡ done (ts, length (tags_part o)))
        × (collect (tagged o rest) (or_empty ts) ≡ done (or_empty o))
  unfolding collect
  read_tags none rest pairs few other fits = (none, no_tags rest (other refl), refl)
  read_tags (some kvs) rest pairs few other fits =
      let (ts, parsed, texts) = parse-render kvs rest pairs few fits in
      let at : length (render kvs) + 2 ≡ length (b'@' ∷ (render kvs ++ b' ' ∷ [])) =
        omega (arith, length-append (render kvs) (b' ' ∷ [])) in
      (
        some ts,
        parse_scalar v law addr (b'@' ∷ (render kvs ++ b' ' ∷ rest)) 0
              (λ s e none_found. space_follows kvs rest s e none_found)
            ∙ parsed
            ∙ ap (λ n. done (some ts, n)) at,
        texts,
      )
