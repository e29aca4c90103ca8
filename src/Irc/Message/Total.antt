-- ===== src/Irc/Message/Total.antt =====
-- The end of the line parser with the vectorised tag parser.
use tmi_rs.Prelude.{
  ℕ, ◌+◌, ◌≤◌, Bool-cases, true, false, inl, inr, List, [], ◌∷◌, Option, none, some, Option-cases,
  ◌≡◌, ◌≢◌, refl, sym, ap, subst, ◌∙◌, ◌==◌, ==_iff, done, done_inj, Returns, >>=-Returns,
}
use tmi_rs.Str.{Str, codes, find, strip_prefix, slice_from, is_char_boundary}
use tmi_rs.Str.Boundary.{IsText, Boundary}
use tmi_rs.Irc.Prefix.{RawPrefix}
use tmi_rs.Irc.Prefix.Total as PrefixTotal
use tmi_rs.Irc.Command.{RawCommand}
use tmi_rs.Irc.Command.Total as CommandTotal
use tmi_rs.Irc.Channel
use tmi_rs.Irc.Channel.Total as ChannelTotal
use tmi_rs.Irc.Tags.{TagPair, capacity}
use tmi_rs.Irc.Tags.Total.{count, parse-tags, behind_tags, parse-no_tags}
use tmi_rs.Irc.Wide.{Vector, IsVector}
use tmi_rs.Irc.Simd
use tmi_rs.Irc.Simd.Agreement.{parse_scalar, parse_unterminated}
use tmi_rs.Irc.Message.{TagParser, parse, parse_rest, or_empty}

module _ (src : Str) (text : IsText src) where
  parse_rest-Returns :
      (tags : List TagPair) (prefix : Option RawPrefix) (command : Option RawCommand) (pos : ℕ)
      → Boundary src pos
      → Returns (parse_rest src tags prefix command pos)
  unfolding parse_rest
  parse_rest-Returns tags prefix none pos h = (none, refl)
  parse_rest-Returns tags prefix (some command) pos h =
      let (channel, next, parsed, h') = ChannelTotal.parse-Boundary src text pos h in
      rw parsed (
        >>=-Returns (Channel.parse_params src next) _
          (ChannelTotal.parse_params-Boundary src next h') λ params _. (_, refl))

  -- With a tag parser that returns at a boundary.
  parse_with-Returns :
      (parse_tags : TagParser) (tags : Option (List TagPair)) (pos : ℕ)
      → parse_tags src 0 ≡ done (tags, pos)
      → Boundary src pos
      → Returns (parse parse_tags src)
  unfolding parse
  parse_with-Returns parse_tags tags pos e h =
      let (prefix, p2, e2, h2) = PrefixTotal.parse-Boundary src text pos h in
      let (command, p3, e3, h3) = CommandTotal.parse-Boundary src text p2 h2 in
      rw (e, e2, e3) (parse_rest-Returns (or_empty tags) prefix command p3 h3)

ended :
    (s t : Str) (i : ℕ)
    → find s b' ' ≡ some i
    → done (b'@' ∷ s) ≡ done (b'@' ∷ t)
    → find t b' ' ≢ none
ended s t i hit e none_found =
    let same : s ≡ t = cc in
    let bad : some i ≡ none = sym hit ∙ ap (λ r. find r b' ') same ∙ none_found in cc

module _ (v : Vector) (law : IsVector v) (addr : ℕ) where
  -- The tag parser returns at a boundary.
  abbrev TagsDone : Str → Type 0
  TagsDone src =
      (tags : Option (List TagPair)) × (pos : ℕ) × (Simd.parse v addr src 0 ≡ done (tags, pos))
      × Boundary src pos

  at_tags : (s : Str) → IsText (b'@' ∷ s) → count b'=' s ≤ capacity → TagsDone (b'@' ∷ s)
  unfolding slice_from is_char_boundary
  at_tags s text le = elim (Option-cases (find s b' ')) [
    | inl miss ↦ (none, 0, parse_unterminated v law addr (b'@' ∷ s) 0 s refl miss, refl)
    | inr (i, hit) ↦
        let (tags, read) = parse-tags s i le hit in
        (
          some tags,
          i + 2,
          parse_scalar v law addr (b'@' ∷ s) 0 (λ t e none_found. ended s t i hit e none_found)
              ∙ read,
          behind_tags s i text hit,
        )
  ]

  no_tags :
      (src : Str)
      → ((s : Str) → src ≢ b'@' ∷ s)
      → strip_prefix (codes "@") src ≡ none
      → TagsDone src
  unfolding slice_from is_char_boundary
  no_tags src other miss = (
    none,
    0,
    parse_scalar v law addr src 0 (λ s e. absurd (other s (done_inj e))) ∙ parse-no_tags src miss,
    refl,
  )

  simd-tags : (src : Str) → IsText src → count b'=' src ≤ capacity → TagsDone src
  unfolding strip_prefix
  simd-tags [] text le = no_tags [] (λ s e. cc) refl
  simd-tags (c ∷ s) text le = elim (Bool-cases (b'@' == c)) [
    | inl sign ↦
        let same : b'@' ≡ c = (==_iff b'@' c).0 sign in
        subst (λ d. IsText (d ∷ s) → count b'=' (d ∷ s) ≤ capacity → TagsDone (d ∷ s)) same
          (at_tags s) text le
    | inr other ↦
        no_tags (c ∷ s)
          (λ t e.
            let same : c ≡ b'@' = cc in
            let bad : true ≡ false = sym ((==_iff b'@' c).1 (sym same)) ∙ other in cc)
          (rw other refl)
  ]

  -- A text with at most 128 equals signs is parsed to a message or to none, without a panic.
  pub parse-Returns :
      (src : Str) → IsText src → count b'=' src ≤ capacity → Returns (parse (Simd.parse v addr) src)
  parse-Returns src text le =
      let (tags, pos, e, h) = simd-tags src text le in
      parse_with-Returns src text (Simd.parse v addr) tags pos e h
