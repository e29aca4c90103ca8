-- ===== src/Msg/Badge/RoundTrip.antt =====
-- Badges that are turned into their data and back.
use tmi_rs.Prelude.{
  List, [], ◌∷◌, Option, none, some, ◌≡◌, refl, ap, inl, inr, All, Option-cases, bind?,
}
use tmi_rs.Str.{Str, codes, lookup, eq}
use tmi_rs.Str.Laws.{lookup-eq-some}
use tmi_rs.Str.Numbers.{parse_u64, parse_unsigned, magnitude, digits}
use tmi_rs.Msg.Badge.{
  BadgeData, Badge, staff, turbo, broadcaster, moderator, subscriber, unwrap_or, to_subscriber,
  to_badge, as_badge_data,
}

months_kept :
    (extra : Option Str)
    → unwrap_or 1 (parse_u64 (unwrap_or (codes "1") extra)) ≡ unwrap_or 1 (bind? extra parse_u64)
unfolding parse_unsigned magnitude digits
months_kept none = refl
months_kept (some s) = refl

subscriber_kept :
    (d : BadgeData)
    → to_badge (as_badge_data (subscriber (to_subscriber d))) ≡ subscriber (to_subscriber d)
unfolding to_badge as_badge_data to_subscriber lookup eq
subscriber_kept d =
    ap
      (λ n.
        subscriber
          (record { version = d.version; months = unwrap_or (codes "1") d.extra; months_n = n }))
      (months_kept d.extra)

abbrev arms : BadgeData → List (Str × Badge)
arms value =
    (codes "staff", staff)
    ∷ (codes "turbo", turbo)
    ∷ (codes "broadcaster", broadcaster)
    ∷ (codes "moderator", moderator)
    ∷ (codes "subscriber", subscriber (to_subscriber value))
    ∷ []

arms_kept : (d : BadgeData) → All (λ arm. to_badge (as_badge_data arm.1) ≡ arm.1) (arms d)
unfolding to_badge as_badge_data lookup eq
arms_kept d = (refl, (refl, (refl, (refl, (subscriber_kept d, tt)))))

-- A badge that was made from its data is given back when it is turned into data and made again.
pub to_badge-as_badge_data : (d : BadgeData) → to_badge (as_badge_data (to_badge d)) ≡ to_badge d
unfolding to_badge
to_badge-as_badge_data d = elim (Option-cases (lookup d.name (arms d))) [
  | inl miss ↦ rw miss (unfold as_badge_data in rw miss refl)
  | inr (b, hit) ↦
      rw hit
        (lookup-eq-some (λ _ b. to_badge (as_badge_data b) ≡ b) d.name (arms d) (arms_kept d) hit)
]
