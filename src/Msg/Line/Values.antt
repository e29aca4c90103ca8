-- ===== src/Msg/Line/Values.antt =====
-- msg.rs and msg/room_state.rs: the badges of a line and its mode for followers, as its tags say them.
use tmi_rs.Prelude.{
  ℕ, zero, suc, ◌<◌, ◌*◌, ◌%◌, ◌^◌, List, [], Option, none, some, bind?, map?, ◌≡◌, refl, ap, ◌∙◌,
  arith, done,
}
use tmi_rs.Prelude.Int.{ℤ, pos, negsuc}
use tmi_rs.Str.{Str, codes}
use tmi_rs.Str.Numbers.{parse_i64}
use tmi_rs.Irc.Message.{IrcMessage, or_empty}
use tmi_rs.Irc.Message.Whole.{Whole, SaysWhole}
use tmi_rs.Irc.Message.Lookup.{first_value}
use tmi_rs.Msg.Badge.{Badge}
use tmi_rs.Msg.Badge.Listed.{SaysBadges}
use tmi_rs.Msg.Badge.Listed.Parsed.{parse_badges_iff}
use tmi_rs.Msg.Fields.{zip_badges, badges_of}
use tmi_rs.Msg.Line.{badges_of-first_value}
use tmi_rs.Msg.RoomState.{FollowersOnly, disabled, enabled, followers_only_of}

-- The badges that the tags say: none where one of the two tags is missing.
pub data HasBadges (tags : List (Str × Str)) : List Badge → Type 0 where
  no_badges : first_value (codes "badges") tags ≡ none → HasBadges tags []
  no_details : first_value (codes "badge-info") tags ≡ none → HasBadges tags []
  lists_badges :
      {out : List Badge} (badges infos : Str)
      → first_value (codes "badges") tags ≡ some badges
      → first_value (codes "badge-info") tags ≡ some infos
      → SaysBadges badges infos out
      → HasBadges tags out

zip_badges-none : (badges : Option Str) → zip_badges badges none ≡ []
unfolding zip_badges
zip_badges-none none = refl
zip_badges-none (some badges) = refl

zip_badges-HasBadges :
    (tags : List (Str × Str)) (out : List Badge)
    → HasBadges tags out
    → zip_badges (first_value (codes "badges") tags) (first_value (codes "badge-info") tags) ≡ out
unfolding zip_badges
zip_badges-HasBadges tags out (no_badges e) = rw e refl
zip_badges-HasBadges tags out (no_details e) =
    rw e (zip_badges-none (first_value (codes "badges") tags))
zip_badges-HasBadges tags out (lists_badges badges infos e e' says) =
    rw (e, e') ((parse_badges_iff badges infos out).1 says)

pub badges_of-HasBadges :
    (m : IrcMessage) (w : Whole)
    → SaysWhole m w
    → (out : List Badge) → HasBadges (or_empty w.tags) out
    → badges_of m ≡ done (some out)
badges_of-HasBadges m w says out has =
    badges_of-first_value m w says
    ∙ ap (λ badges. done (some badges)) (zip_badges-HasBadges (or_empty w.tags) out has)

-- The mode that a number of minutes says: a negative number turns it off, zero admits all followers,
-- and any other number those who have followed for this time, which is kept in seconds of 64 bits.
pub data IsMode : ℤ → FollowersOnly → Type 0 where
  off : (n : ℕ) → IsMode (negsuc n) disabled
  for_all : IsMode (pos 0) (enabled none)
  from_minutes :
      (minutes seconds : ℕ)
      → 0 < minutes
      → seconds ≡ (minutes * 60) % 2 ^ 64
      → IsMode (pos minutes) (enabled (some seconds))

-- The mode that the tags say: nothing where its tag is missing or holds no number.
pub data HasMode (tags : List (Str × Str)) : Option FollowersOnly → Type 0 where
  no_mode : first_value (codes "followers-only") tags ≡ none → HasMode tags none
  no_number :
      (s : Str)
      → first_value (codes "followers-only") tags ≡ some s
      → parse_i64 s ≡ none
      → HasMode tags none
  says_mode :
      (s : Str) (minutes : ℤ) (mode : FollowersOnly)
      → first_value (codes "followers-only") tags ≡ some s
      → parse_i64 s ≡ some minutes
      → IsMode minutes mode
      → HasMode tags (some mode)

followers_only_of-IsMode :
    (minutes : ℤ) (mode : FollowersOnly) → IsMode minutes mode → followers_only_of minutes ≡ mode
unfolding followers_only_of
followers_only_of-IsMode _ _ (off n) = refl
followers_only_of-IsMode _ _ for_all = refl
followers_only_of-IsMode _ _ (from_minutes zero seconds some_minutes e) =
    absurd (omega (arith, some_minutes))
followers_only_of-IsMode _ _ (from_minutes (suc n) seconds some_minutes e) = rw e refl

pub followers_only_of-HasMode :
    (tags : List (Str × Str)) (mode : Option FollowersOnly)
    → HasMode tags mode
    → map? (bind? (first_value (codes "followers-only") tags) parse_i64) followers_only_of ≡ mode
followers_only_of-HasMode tags mode (no_mode e) = rw e refl
followers_only_of-HasMode tags mode (no_number s e unread) = rw (e, unread) refl
followers_only_of-HasMode tags _ (says_mode s minutes mode e read is) =
    rw (e, read, followers_only_of-IsMode minutes mode is) refl
