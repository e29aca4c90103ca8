-- ===== src/Msg/Event/Ends.antt =====
-- The event of a user notice on lines that keep the invariant.
use tmi_rs.Prelude.{Option, All, Option-cases, inl, inr}
use tmi_rs.Str.{Str, lookup}
use tmi_rs.Str.Laws.{lookup-eq-some}
use tmi_rs.Irc.Message.{IrcMessage}
use tmi_rs.Irc.Message.Bounds.{WellFormed}
use tmi_rs.Msg.Attempt.Laws.{Ends, ends_rules}
use tmi_rs.Msg.Fields.Ends.{field_rules}
use tmi_rs.Msg.Event.{
  parse_promotion, sub_arm, raid_arm, sub_gift_arm, anon_sub_mystery_gift_arm, sub_mystery_gift_arm,
  gift_paid_upgrade_arm, anon_gift_paid_upgrade_arm, ritual_arm, bits_badge_tier_arm,
  announcement_arm, event_arms, event_of,
}

module _ (m : IrcMessage) (ok : WellFormed m) where
  parse_promotion-Ends : Ends (parse_promotion m)
  unfolding parse_promotion
  parse_promotion-Ends = search field_rules depth 30

  sub_arm-Ends : (event_id : Str) → Ends (sub_arm m event_id)
  unfolding sub_arm
  sub_arm-Ends event_id = search field_rules depth 30

  raid_arm-Ends : Ends (raid_arm m)
  unfolding raid_arm
  raid_arm-Ends = search field_rules depth 30

  sub_gift_arm-Ends :
      (event_id : Str) (sender_id : Option Str) → Ends (sub_gift_arm m event_id sender_id)
  unfolding sub_gift_arm
  sub_gift_arm-Ends event_id sender_id = search field_rules depth 30

  anon_sub_mystery_gift_arm-Ends : Ends (anon_sub_mystery_gift_arm m)
  unfolding anon_sub_mystery_gift_arm
  anon_sub_mystery_gift_arm-Ends = search field_rules depth 30

  sub_mystery_gift_arm-Ends : (sender_id : Option Str) → Ends (sub_mystery_gift_arm m sender_id)
  unfolding sub_mystery_gift_arm
  sub_mystery_gift_arm-Ends sender_id =
      search (field_rules, anon_sub_mystery_gift_arm-Ends) depth 30

  gift_paid_upgrade_arm-Ends : Ends (gift_paid_upgrade_arm m)
  unfolding gift_paid_upgrade_arm
  gift_paid_upgrade_arm-Ends = search (field_rules, parse_promotion-Ends) depth 30

  anon_gift_paid_upgrade_arm-Ends : Ends (anon_gift_paid_upgrade_arm m)
  unfolding anon_gift_paid_upgrade_arm
  anon_gift_paid_upgrade_arm-Ends = search (field_rules, parse_promotion-Ends) depth 30

  ritual_arm-Ends : Ends (ritual_arm m)
  unfolding ritual_arm
  ritual_arm-Ends = search field_rules depth 30

  bits_badge_tier_arm-Ends : Ends (bits_badge_tier_arm m)
  unfolding bits_badge_tier_arm
  bits_badge_tier_arm-Ends = search field_rules depth 30

  announcement_arm-Ends : Ends (announcement_arm m)
  unfolding announcement_arm
  announcement_arm-Ends = search field_rules depth 30

  arms-End :
      (event_id : Str) (sender_id : Option Str)
      → All (λ arm. Ends arm.1) (event_arms m event_id sender_id)
  unfolding event_arms
  arms-End event_id sender_id = (
    sub_arm-Ends event_id,
    (
      sub_arm-Ends event_id,
      (
        raid_arm-Ends,
        (
          sub_gift_arm-Ends event_id sender_id,
          (
            sub_gift_arm-Ends event_id sender_id,
            (
              anon_sub_mystery_gift_arm-Ends,
              (
                sub_mystery_gift_arm-Ends sender_id,
                (
                  gift_paid_upgrade_arm-Ends,
                  (
                    anon_gift_paid_upgrade_arm-Ends,
                    (ritual_arm-Ends, (bits_badge_tier_arm-Ends, (announcement_arm-Ends, tt))),
                  ),
                ),
              ),
            ),
          ),
        ),
      ),
    ),
  )

  pub event_of-Ends :
      (event_id : Str) (sender_id : Option Str) → Ends (event_of m event_id sender_id)
  unfolding event_of
  event_of-Ends event_id sender_id =
      elim (Option-cases (lookup event_id (event_arms m event_id sender_id))) [
        | inl miss ↦ rw miss (search ends_rules)
        | inr (arm, hit) ↦ rw hit (
            lookup-eq-some (λ _ arm. Ends arm) event_id (event_arms m event_id sender_id)
              (arms-End event_id sender_id) hit)
      ]
