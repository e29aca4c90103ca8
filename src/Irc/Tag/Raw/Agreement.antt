-- ===== src/Irc/Tag/Raw/Agreement.antt =====
-- The parser of raw tags against the parser of tags.
use tmi_rs.Prelude.{
  Bool, true, false, ◌&&◌, Bool-cases, Option-cases, inl, inr, List, [], ◌∷◌, some, map, map?, ◌≡◌,
  refl, arith, done, ◌>>=◌,
}
use tmi_rs.Str.{Str, eq, lookup}
use tmi_rs.Irc.Span.{Span, index}
use tmi_rs.Irc.Tag as TagNames
use tmi_rs.Irc.Tag.{Tag, or_unknown}
use tmi_rs.Irc.Tag.Raw.{RawTag, get, arms, known_or_unknown, parse}

is_named : RawTag → Bool
is_named RawTag.msg_id = true
is_named (RawTag.unknown span) = false
is_named _ = true

all_named : List (Str × RawTag) → Bool
all_named [] = true
all_named (arm ∷ arms) = is_named arm.1 && all_named arms

arms_named : all_named arms ≡ true
unfolding all_named is_named
arms_named = refl

lookup-all_named :
    (key : Str) (arms : List (Str × RawTag)) (raw : RawTag)
    → all_named arms ≡ true
    → lookup key arms ≡ some raw
    → is_named raw ≡ true
unfolding all_named lookup
lookup-all_named key [] raw h e = cc
lookup-all_named key ((k, r) ∷ arms) raw h e = ground (arith, lookup-all_named key arms raw)

-- The tag of a raw tag with a name of its own.
tag_of : RawTag → Tag
tag_of raw = elim (get raw []) [ done tag ↦ tag | _ ↦ Tag.unknown [] ]

get-tag_of : (src : Str) (raw : RawTag) → is_named raw ≡ true → get raw src ≡ done (tag_of raw)
unfolding get tag_of is_named
get-tag_of src RawTag.msg_id h = refl
get-tag_of src (RawTag.unknown span) h = cc
get-tag_of src _ h = refl

arms_of_tags : TagNames.arms ≡ map (λ arm. (arm.0, tag_of arm.1)) arms
unfolding tag_of get
arms_of_tags = refl

lookup-map :
    (key : Str) (arms : List (Str × RawTag))
    → lookup key (map (λ arm. (arm.0, tag_of arm.1)) arms) ≡ map? (lookup key arms) tag_of
unfolding lookup
lookup-map key [] = refl
lookup-map key ((k, r) ∷ arms) = elim (Bool-cases (eq key k)) [
  | inl hit ↦ rw hit refl
  | inr miss ↦ rw miss (lookup-map key arms)
]

-- The key of a span is read as the same tag, directly or as a raw tag that is asked for its text.
pub get-parse :
    (src : Str) (span : Span) (key : Str)
    → index src span ≡ done key
    → (parse src span >>= λ raw. get raw src) ≡ done (TagNames.parse key)
unfolding parse TagNames.parse or_unknown known_or_unknown
get-parse src span key e = elim (Option-cases (lookup key arms)) [
  | inl miss ↦ rw (e, miss) (unfold get in rw (e, arms_of_tags, lookup-map key arms, miss) refl)
  | inr (raw, hit) ↦
      let named = lookup-all_named key arms raw arms_named hit in
      rw (e, hit, get-tag_of src raw named, arms_of_tags, lookup-map key arms, hit) refl
]
