-- ===== src/Msg/Badge/Listed/Parsed.antt =====
-- The parser of badges, against what the lists say.
use tmi_rs.Prelude.{
  ℕ, List, [], ◌∷◌, Option, none, map, ◌≡◌, ◌↔◌, inl, inr, refl, sym, subst, ◌∙◌, ==_false,
}
use tmi_rs.Str.{Str, Lacks}
use tmi_rs.Str.Split.{split, split_once, filter_map}
use tmi_rs.Str.Split.Laws.{split-join, split_once-append}
use tmi_rs.Str.Split.Parts.{split-Parts, split_once-cases}
use tmi_rs.Msg.Badge.{Badge, find_info, badge_of, pairs_of, parse_badges}
use tmi_rs.Msg.Badge.Listed.{
  Kept, end, drops, keeps, Holds, SaysBadges, IsBadge, Listed, none_left, next,
}
use tmi_rs.Msg.Badge.Listed.Details.{find_info-IsDetail, IsDetail-find_info}
use tmi_rs.Msg.Badge.Listed.Made.{made, made-IsBadge, IsBadge-made}

split_once-Lacks : (sep : ℕ) (s : Str) → Lacks sep s → split_once sep s ≡ none
unfolding split_once
split_once-Lacks sep [] h = refl
split_once-Lacks sep (c ∷ s) (hc, h) = rw (==_false c sep hc, split_once-Lacks sep s h) refl

filter_map-Kept :
    {parts : List Str} {pairs : List (Str × Str)}
    → Kept parts pairs
    → filter_map (split_once b'/') parts ≡ pairs
filter_map-Kept end = refl
filter_map-Kept (drops lacks kept) = rw (split_once-Lacks b'/' _ lacks) (filter_map-Kept kept)
filter_map-Kept (keeps name value e lacks kept) =
    rw (e, split_once-append b'/' name value lacks, filter_map-Kept kept) refl

pairs_of-Holds : (s : Str) (pairs : List (Str × Str)) → Holds s pairs → pairs_of s ≡ pairs
unfolding pairs_of
pairs_of-Holds s pairs h =
    rw (h.text, split-join b',' h.part h.parts h.no_comma h.no_commas) (filter_map-Kept h.kept)

parse_badges-pairs_of :
    (badges info : Str)
    → parse_badges badges info ≡ map (badge_of (pairs_of info)) (pairs_of badges)
unfolding parse_badges
parse_badges-pairs_of [] info = unfold pairs_of split split_once in refl
parse_badges-pairs_of (c ∷ badges) info = refl

badge_of-made :
    (infos : List (Str × Str)) (name version : Str) (detail : Option Str)
    → find_info name infos ≡ detail
    → badge_of infos (name, version) ≡ made name version detail
unfolding badge_of made
badge_of-made infos name version detail e = rw e refl

badges_of-Listed :
    (infos pairs : List (Str × Str)) → Listed infos pairs (map (badge_of infos) pairs)
badges_of-Listed infos [] = none_left
badges_of-Listed infos ((name, version) ∷ pairs) =
    let detail = find_info name infos in
    next detail (find_info-IsDetail name infos)
      (subst (IsBadge name version detail) (sym (badge_of-made infos name version detail refl))
        (made-IsBadge name version detail))
      (badges_of-Listed infos pairs)

Listed-badges_of :
    (infos pairs : List (Str × Str)) (badges : List Badge)
    → Listed infos pairs badges
    → map (badge_of infos) pairs ≡ badges
Listed-badges_of infos [] badges none_left = refl
Listed-badges_of infos ((name, version) ∷ pairs) [] listed = elim listed [ ]
Listed-badges_of infos ((name, version) ∷ pairs) (badge ∷ badges)
      (next detail is_detail is_badge rest) =
    let made' =
      badge_of-made infos name version detail (IsDetail-find_info name infos detail is_detail) in
    let is = IsBadge-made name version detail badge is_badge in
    let others = Listed-badges_of infos pairs badges rest in rw (made', is, others) refl

parse_badges-Holds :
    (badges infos : Str) (pairs details : List (Str × Str))
    → Holds badges pairs
    → Holds infos details
    → parse_badges badges infos ≡ map (badge_of details) pairs
parse_badges-Holds badges infos pairs details hb hi =
    rw
      (
        parse_badges-pairs_of badges infos,
        pairs_of-Holds badges pairs hb,
        pairs_of-Holds infos details hi,
      )
      refl

Kept-filter_map : (parts : List Str) → Kept parts (filter_map (split_once b'/') parts)
Kept-filter_map [] = end
Kept-filter_map (part ∷ parts) = elim (split_once-cases b'/' part) [
  | inl (lacks, miss) ↦ rw miss (drops lacks (Kept-filter_map parts))
  | inr (name, value, lacks, e, hit) ↦ rw hit (keeps name value e lacks (Kept-filter_map parts))
]

Holds-pairs_of : (s : Str) → Holds s (pairs_of s)
unfolding pairs_of
Holds-pairs_of s =
    let cut = split-Parts b',' s in
    record {
      part = cut.part;
      parts = cut.parts;
      text = cut.text;
      no_comma = cut.lacks;
      no_commas = cut.others;
      kept = rw cut.cut (Kept-filter_map (cut.part ∷ cut.parts));
    }

parse_badges-SaysBadges : (badges infos : Str) → SaysBadges badges infos (parse_badges badges infos)
parse_badges-SaysBadges badges infos = record {
  pairs = pairs_of badges;
  details = pairs_of infos;
  holds = Holds-pairs_of badges;
  details_hold = Holds-pairs_of infos;
  listed =
      subst (Listed (pairs_of infos) (pairs_of badges)) (sym (parse_badges-pairs_of badges infos))
        (badges_of-Listed (pairs_of infos) (pairs_of badges));
}

-- The badges that are read from two texts are exactly those that the texts say. Each text is cut at
-- its commas, each part is cut at its first slash, and parts without one are dropped. There is a badge
-- for each pair of the first text, in order, of the kind that the name says, with the version and with
-- the value of the first pair of the second text with that name, or nothing where there is none. The
-- months of a subscriber are this value, and its number of 64 bits, or one where it is none.
pub parse_badges_iff :
    (badges infos : Str) (out : List Badge)
    → (parse_badges badges infos ≡ out) ↔ SaysBadges badges infos out
parse_badges_iff badges infos out = (
  λ e. subst (SaysBadges badges infos) e (parse_badges-SaysBadges badges infos),
  λ says.
      parse_badges-Holds badges infos says.pairs says.details says.holds says.details_hold
      ∙ Listed-badges_of says.details says.pairs out says.listed,
)
