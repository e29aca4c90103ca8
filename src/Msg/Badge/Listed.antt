-- ===== src/Msg/Badge/Listed.antt =====
-- msg.rs: what a list of badges says, in terms of the text alone.
pub mod Details
pub mod Made
pub mod Parsed
use tmi_rs.Prelude.{ℕ, ◌^◌, List, [], ◌∷◌, ◌++◌, Option, none, some, ◌≡◌, ◌≢◌, ◌⊎◌, refl, All}
use tmi_rs.Str.{Str, codes, Lacks}
use tmi_rs.Str.Split.Laws.{join}
use tmi_rs.Str.Numbers.Laws.{Reads, unsigned_digits}
use tmi_rs.Msg.Badge.{Badge, Subscriber}

-- The parts of a list and the pairs that stand for them: a part with a slash is cut at its first
-- one, and a part without is dropped.
pub data Kept : List Str → List (Str × Str) → Type 0 where
  end : Kept [] []
  drops :
      {part : Str} {parts : List Str} {pairs : List (Str × Str)}
      → Lacks b'/' part
      → Kept parts pairs
      → Kept (part ∷ parts) pairs
  keeps :
      {part : Str} {parts : List Str} {pairs : List (Str × Str)} (name value : Str)
      → part ≡ name ++ b'/' ∷ value
      → Lacks b'/' name
      → Kept parts pairs
      → Kept (part ∷ parts) ((name, value) ∷ pairs)

-- The text is a list of parts with commas between, and holds these pairs.
pub record Holds (s : Str) (pairs : List (Str × Str)) : Type 0 where
  pub part : Str
  pub parts : List Str
  pub text : s ≡ join b',' part parts
  pub no_comma : Lacks b',' part
  pub no_commas : All (Lacks b',') parts
  pub kept : Kept (part ∷ parts) pairs

-- The detail of a name is the value of the first pair with it, if there is one.
abbrev pub IsDetail : Str → List (Str × Str) → Option Str → Type 0
IsDetail name infos none = All (λ info. info.0 ≢ name) infos
IsDetail name infos (some value) =
    (before : List (Str × Str)) × (after : List (Str × Str)) × (infos
      ≡ before ++ (name, value) ∷ after)
    × All (λ info. info.0 ≢ name) before

-- The months of a subscriber: the decimal number of the detail, or else one.
abbrev pub AreMonths : Option Str → Str → ℕ → Type 0
AreMonths none months n = (months ≡ codes "1") × (n ≡ 1)
AreMonths (some detail) months n =
    (months ≡ detail)
    × (Reads (2 ^ 64) (unsigned_digits detail) n
        ⊎ (((k : ℕ) → ¬ Reads (2 ^ 64) (unsigned_digits detail) k) × (n ≡ 1)))

-- The badge with this name, version and detail.
pub data IsBadge (name version : Str) (detail : Option Str) : Badge → Type 0 where
  is_staff : name ≡ codes "staff" → IsBadge name version detail Badge.staff
  is_turbo : name ≡ codes "turbo" → IsBadge name version detail Badge.turbo
  is_broadcaster : name ≡ codes "broadcaster" → IsBadge name version detail Badge.broadcaster
  is_moderator : name ≡ codes "moderator" → IsBadge name version detail Badge.moderator
  is_subscriber :
      (months : Str) (n : ℕ)
      → name ≡ codes "subscriber"
      → AreMonths detail months n
      → IsBadge name version detail
          (Badge.subscriber (record { version = version; months = months; months_n = n }))
  is_other :
      name ≢ codes "staff"
      → name ≢ codes "turbo"
      → name ≢ codes "broadcaster"
      → name ≢ codes "moderator"
      → name ≢ codes "subscriber"
      → IsBadge name version detail
          (Badge.other (record { name = name; version = version; extra = detail }))

-- One badge for each pair, in order, with the detail of its name.
pub data Listed (infos : List (Str × Str)) : List (Str × Str) → List Badge → Type 0 where
  none_left : Listed infos [] []
  next :
      {name version : Str} {pairs : List (Str × Str)} {badge : Badge} {badges : List Badge}
      (detail : Option Str)
      → IsDetail name infos detail
      → IsBadge name version detail badge
      → Listed infos pairs badges
      → Listed infos ((name, version) ∷ pairs) (badge ∷ badges)

-- The badges that two texts say, the second with the details.
pub record SaysBadges (badges infos : Str) (out : List Badge) : Type 0 where
  pub pairs : List (Str × Str)
  pub details : List (Str × Str)
  pub holds : Holds badges pairs
  pub details_hold : Holds infos details
  pub listed : Listed details pairs out
