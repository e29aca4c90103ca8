-- ===== src/Irc/Message/Bounds/Parsed.antt =====
-- The line parser and the invariant of its messages.
use tmi_rs.Prelude.{
  true, false, ◌==◌, ==_iff, Bool-cases, ◌⊎◌, ℕ, ◌≡◌, ◌≢◌, ◌^◌, ◌<◌, sym, ap, subst, ◌∙◌, arith,
  List, [], ◌∷◌, All, IfSome, Option, none, some, Option-cases, inl, inr, length, done, >>=_inv,
  done_inj, some_inj,
}
use tmi_rs.Str.{Str, find, slice_from, is_char_boundary}
use tmi_rs.Str.Boundary.{IsText}
use tmi_rs.Irc.Prefix as Prefixes
use tmi_rs.Irc.Prefix.{RawPrefix}
use tmi_rs.Irc.Prefix.Bounds.{parse-PrefixInside, PrefixInside}
use tmi_rs.Irc.Command as Commands
use tmi_rs.Irc.Command.{RawCommand}
use tmi_rs.Irc.Command.Bounds.{parse-CommandInside, CommandInside}
use tmi_rs.Irc.Channel
use tmi_rs.Irc.Channel.Bounds.{parse-Inside, parse_params-Inside}
use tmi_rs.Irc.Tags.{TagPair}
use tmi_rs.Irc.Tags.Bounds.{PairInside, parse-PairInside}
use tmi_rs.Irc.Tags.Scalar
use tmi_rs.Irc.Wide.{Vector, IsVector}
use tmi_rs.Irc.Simd
use tmi_rs.Irc.Simd.Agreement.{parse_scalar, parse_unterminated}
use tmi_rs.Irc.Message.{IrcMessage, TagParser, or_empty, parse, parse_rest}
use tmi_rs.Irc.Message.Bounds.{WellFormed}

or_empty-All :
    (P : TagPair → Type 0) (tags : Option (List TagPair))
    → IfSome (All P) tags
    → All P (or_empty tags)
or_empty-All P none h = tt
or_empty-All P (some ts) h = h

-- Tags are ended by a space, or they are not.
tags_end :
    (src : Str)
    → ((s : Str) → slice_from src 0 ≡ done (b'@' ∷ s) → find s b' ' ≢ none)
      ⊎ ((s : Str) × (slice_from src 0 ≡ done (b'@' ∷ s)) × (find s b' ' ≡ none))
unfolding slice_from is_char_boundary
tags_end [] = inl λ s e. cc
tags_end (c ∷ s) = elim (Option-cases (find s b' ')) [
  | inr (i, hit) ↦ inl λ s' e none_found.
      let same : s ≡ s' = cc in
      let bad : some i ≡ none = sym hit ∙ ap (λ t. find t b' ') same ∙ none_found in cc
  | inl miss ↦ elim (Bool-cases (c == b'@')) [
    | inl sign ↦ inr (s, ap (λ x. done (x ∷ s)) ((==_iff c b'@').0 sign), miss)
    | inr other ↦ inl λ s' e none_found.
        let same : c ≡ b'@' = cc in
        let bad : true ≡ false = sym ((==_iff c b'@').1 same) ∙ other in cc
  ]
]

module _ (src : Str) (text : IsText src) (short : length src < 2 ^ 16) where
  abbrev short32 : length src < 2 ^ 32
  short32 = omega (arith, short)

  parse_rest-WellFormed :
      (tags : List TagPair) (prefix : Option RawPrefix) (command : Option RawCommand) (pos : ℕ)
      (m : IrcMessage)
      → All (PairInside src) tags
      → IfSome (PrefixInside src) prefix
      → IfSome (CommandInside src) command
      → parse_rest src tags prefix command pos ≡ done (some m)
      → WellFormed m
  unfolding parse_rest
  parse_rest-WellFormed tags prefix none pos m ht hp hc e = cc
  parse_rest-WellFormed tags prefix (some command) pos m ht hp hc e =
      let ((channel, next), found, rest) = >>=_inv (Channel.parse src pos) _ (some m) e in
      let (params, read, ended) = >>=_inv (Channel.parse_params src next) _ (some m) rest in
      let message : IrcMessage = record {
        src = src;
        parts = record {
          tags = tags;
          prefix = prefix;
          command = command;
          channel = channel;
          params = params;
        };
      } in
      let same : message ≡ m = some_inj (done_inj ended) in
      subst WellFormed same (record {
        text = text;
        tags = ht;
        prefix = hp;
        command = hc;
        channel = parse-Inside src short32 pos next channel found;
        params = parse_params-Inside src short32 next params read;
      })

  -- With any tag parser whose pairs can be cut out.
  parse_with-WellFormed :
      (parse_tags : TagParser)
      → ((tags : Option (List TagPair)) (pos : ℕ)
          → parse_tags src 0 ≡ done (tags, pos)
          → IfSome (All (PairInside src)) tags)
      → (m : IrcMessage) → parse parse_tags src ≡ done (some m)
      → WellFormed m
  unfolding parse
  parse_with-WellFormed parse_tags inside m e =
      let ((tags, p1), e1, r1) = >>=_inv (parse_tags src 0) _ (some m) e in
      let ((prefix, p2), e2, r2) = >>=_inv (Prefixes.parse src p1) _ (some m) r1 in
      let ((command, p3), e3, r3) = >>=_inv (Commands.parse src p2) _ (some m) r2 in
      parse_rest-WellFormed (or_empty tags) prefix command p3 m
        (or_empty-All (PairInside src) tags (inside tags p1 e1))
        (parse-PrefixInside src text short32 p1 p2 prefix e2)
        (parse-CommandInside src text short32 p2 p3 command e3) r3

  -- Every message that the line parser gives with the tag parser by bytes is well-formed, for a
  -- text shorter than 2 ^ 16 bytes.
  pub parse_scalar-WellFormed :
      (m : IrcMessage) → parse Scalar.parse src ≡ done (some m) → WellFormed m
  parse_scalar-WellFormed = parse_with-WellFormed Scalar.parse (parse-PairInside src text short)

  simd-PairInside :
      (v : Vector) (law : IsVector v) (addr : ℕ) (tags : Option (List TagPair)) (pos : ℕ)
      → Simd.parse v addr src 0 ≡ done (tags, pos)
      → IfSome (All (PairInside src)) tags
  simd-PairInside v law addr tags pos e = elim (tags_end src) [
    | inl ends ↦
        parse-PairInside src text short tags pos (sym (parse_scalar v law addr src 0 ends) ∙ e)
    | inr (s, cut, unterminated) ↦
        let none_found : done (none, 0) ≡ done (tags, pos) =
          sym (parse_unterminated v law addr src 0 s cut unterminated) ∙ e in
        let same : none ≡ tags = ap (λ x. x.0) (done_inj none_found) in
        subst (IfSome (All (PairInside src))) same tt
  ]

  -- Every message that the line parser gives with the vectorised tag parser is well-formed, for a
  -- text shorter than 2 ^ 16 bytes and every vector that keeps the contract.
  pub parse-WellFormed :
      (v : Vector)
      → IsVector v
      → (addr : ℕ) (m : IrcMessage) → parse (Simd.parse v addr) src ≡ done (some m)
      → WellFormed m
  parse-WellFormed v law addr =
      parse_with-WellFormed (Simd.parse v addr) (simd-PairInside v law addr)
