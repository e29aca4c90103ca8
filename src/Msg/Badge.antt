-- ===== src/Msg/Badge.antt =====
-- msg.rs: chat badges, and the parser of the tags `badges` and `badge-info`.
pub mod RoundTrip
pub mod Listed
pub mod Serde
use tmi_rs.Prelude.{ℕ, List, [], ◌∷◌, Option, none, some, bind?, map, map?, if◌then◌else◌}
use tmi_rs.Str.{Str, codes, eq, lookup}
use tmi_rs.Str.Split.{split, split_once, filter_map}
use tmi_rs.Str.Numbers.{parse_u64}

pub record Subscriber : Type 0 where
  pub version : Str
  pub months : Str
  pub months_n : ℕ

pub record BadgeData : Type 0 where
  pub name : Str
  pub version : Str
  pub extra : Option Str

pub data Badge : Type 0 where
  staff turbo broadcaster moderator : Badge
  subscriber : Subscriber → Badge
  other : BadgeData → Badge

abbrev pub unwrap_or {ℓ} : {A : Type ℓ} → A → Option A → A
unwrap_or d none = d
unwrap_or d (some a) = a

-- The subscriber badge of `From<BadgeData> for Badge`.
pub to_subscriber : BadgeData → Subscriber
to_subscriber value = record {
  version = value.version;
  months = unwrap_or (codes "1") value.extra;
  months_n = unwrap_or 1 (bind? value.extra parse_u64);
}

-- `From<BadgeData> for Badge`
unfoldable pub to_badge : BadgeData → Badge
unfolding to_subscriber
to_badge value = unwrap_or (other value) (
    lookup value.name (
      (codes "staff", staff)
      ∷ (codes "turbo", turbo)
      ∷ (codes "broadcaster", broadcaster)
      ∷ (codes "moderator", moderator)
      ∷ (codes "subscriber", subscriber (to_subscriber value))
      ∷ []))

-- A badge with version 1 and nothing more.
abbrev pub plain : Str → BadgeData
plain name = record { name = name; version = codes "1"; extra = none }

-- `From<Badge> for BadgeData`, and `Badge::as_badge_data`
unfoldable pub as_badge_data : Badge → BadgeData
as_badge_data staff = plain (codes "staff")
as_badge_data turbo = plain (codes "turbo")
as_badge_data broadcaster = plain (codes "broadcaster")
as_badge_data moderator = plain (codes "moderator")
as_badge_data (subscriber s) = record {
  name = codes "subscriber";
  version = s.version;
  extra = some s.months;
}
as_badge_data (other data') = data'

-- The second part of the first pair with this first part.
pub find_info : Str → List (Str × Str) → Option Str
find_info name [] = none
find_info name ((needle, value) ∷ infos) =
    if eq needle name then some value else find_info name infos

-- One badge of the list.
pub badge_of : List (Str × Str) → Str × Str → Badge
unfolding find_info
badge_of infos (name, version) =
    to_badge (record { name = name; version = version; extra = find_info name infos })

-- The parts `name/value` of a list with commas; other parts are dropped.
pub pairs_of : Str → List (Str × Str)
pairs_of s = filter_map (split_once b'/') (split b',' s)

unfoldable pub parse_badges : Str → Str → List Badge
unfolding badge_of pairs_of
parse_badges [] badge_info = []
parse_badges (c ∷ badges) badge_info = map (badge_of (pairs_of badge_info)) (pairs_of (c ∷ badges))
