-- ===== src/Msg/Event.antt =====
-- msg/user_notice.rs: the events of a user notice.
pub mod Ends
pub mod Anonymous
use tmi_rs.Prelude.{
  ℕ, Bool, true, false, ◌||◌, List, [], ◌∷◌, Option, none, some, bind?, if◌then◌else◌,
}
use tmi_rs.Str.{Str, codes, eq, lookup}
use tmi_rs.Str.Numbers.{parse_u32, parse_u64}
use tmi_rs.Irc.Tag as TagNames
use tmi_rs.Irc.Message
use tmi_rs.Irc.Message.{IrcMessage}
use tmi_rs.Msg.Attempt.{Attempt, ◌>>=◌, ret, optional}
use tmi_rs.Msg.Badge.{unwrap_or}
use tmi_rs.Msg.Fields.{User, positive, number_of}

pub record SubOrResub : Type 0 where
  pub is_resub : Bool
  pub cumulative_months : ℕ
  pub streak_months : Option ℕ
  pub sub_plan : Str
  pub sub_plan_name : Str

pub record Raid : Type 0 where
  pub viewer_count : ℕ
  pub profile_image_url : Str

pub record SubGift : Type 0 where
  pub cumulative_months : ℕ
  pub recipient : User
  pub sub_plan : Str
  pub sub_plan_name : Str
  pub num_gifted_months : ℕ

pub record SubMysteryGift : Type 0 where
  pub count : ℕ
  pub sender_total_gifts : Option ℕ
  pub sub_plan : Str

pub record AnonSubMysteryGift : Type 0 where
  pub count : ℕ
  pub sub_plan : Str

pub record SubGiftPromo : Type 0 where
  pub total_gifts : ℕ
  pub promo_name : Str

pub record GiftPaidUpgrade : Type 0 where
  pub gifter_login : Str
  pub gifter_name : Str
  pub promotion : Option SubGiftPromo

pub record AnonGiftPaidUpgrade : Type 0 where
  pub promotion : Option SubGiftPromo

pub record Ritual : Type 0 where
  pub name : Str

pub record BitsBadgeTier : Type 0 where
  pub tier : ℕ

pub record Announcement : Type 0 where
  pub highlight_color : Str

pub data Event : Type 0 where
  sub_or_resub : SubOrResub → Event
  raid : Raid → Event
  sub_gift : SubGift → Event
  sub_mystery_gift : SubMysteryGift → Event
  anon_sub_mystery_gift : AnonSubMysteryGift → Event
  gift_paid_upgrade : GiftPaidUpgrade → Event
  anon_gift_paid_upgrade : AnonGiftPaidUpgrade → Event
  ritual : Ritual → Event
  bits_badge_tier : BitsBadgeTier → Event
  announcement : Announcement → Event
  unknown : Event

unfoldable pub promotion : Option ℕ → Option Str → Option SubGiftPromo
promotion (some total_gifts) (some promo_name) =
    some (record { total_gifts = total_gifts; promo_name = promo_name })
promotion _ _ = none

unfoldable pub parse_promotion : IrcMessage → Attempt (Option SubGiftPromo)
unfolding promotion
parse_promotion m = do
  total_gifts ← optional (number_of parse_u64 m TagNames.msg_param_promo_gift_total)
  promo_name ← optional (Message.tag m TagNames.msg_param_promo_name)
  ret (promotion total_gifts promo_name)

-- `sender_id == AN_ANONYMOUS_GIFTER`
unfoldable pub is_anonymous_gifter : Option Str → Bool
is_anonymous_gifter none = false
is_anonymous_gifter (some id) = eq id (codes "274598607")

-- A number of months that is not 0.
unfoldable pub if_positive : ℕ → Option ℕ
if_positive n = if positive n then some n else none

-- The arms of the match on the event's id: the event, and whether its sender is anonymous.
sub_arm : IrcMessage → Str → Attempt (Event × Bool)
unfolding if_positive
sub_arm m event_id = do
  cumulative_months ← number_of parse_u64 m TagNames.msg_param_cumulative_months
  streak ← optional (number_of parse_u64 m TagNames.msg_param_streak_months)
  sub_plan ← Message.tag m TagNames.msg_param_sub_plan
  sub_plan_name ← Message.tag m TagNames.msg_param_sub_plan_name
  ret (
    sub_or_resub (record {
      is_resub = eq event_id (codes "resub");
      cumulative_months = cumulative_months;
      streak_months = bind? streak if_positive;
      sub_plan = sub_plan;
      sub_plan_name = sub_plan_name;
    }),
    false,
  )

raid_arm : IrcMessage → Attempt (Event × Bool)
raid_arm m = do
  viewer_count ← number_of parse_u64 m TagNames.msg_param_viewer_count
  url ← Message.tag m TagNames.msg_param_profile_image_url
  ret (raid (record { viewer_count = viewer_count; profile_image_url = url }), false)

sub_gift_arm : IrcMessage → Str → Option Str → Attempt (Event × Bool)
unfolding is_anonymous_gifter
sub_gift_arm m event_id sender_id = do
  cumulative_months ← number_of parse_u64 m TagNames.msg_param_months
  id ← Message.tag m TagNames.msg_param_recipient_id
  login ← Message.tag m TagNames.msg_param_recipient_user_name
  name ← Message.tag m TagNames.msg_param_recipient_display_name
  sub_plan ← Message.tag m TagNames.msg_param_sub_plan
  sub_plan_name ← Message.tag m TagNames.msg_param_sub_plan_name
  num_gifted_months ← number_of parse_u64 m TagNames.msg_param_gift_months
  ret (
    sub_gift (record {
      cumulative_months = cumulative_months;
      recipient = record { id = id; login = login; name = name };
      sub_plan = sub_plan;
      sub_plan_name = sub_plan_name;
      num_gifted_months = num_gifted_months;
    }),
    eq event_id (codes "anonsubgift") || is_anonymous_gifter sender_id,
  )

anon_sub_mystery_gift_arm : IrcMessage → Attempt (Event × Bool)
anon_sub_mystery_gift_arm m = do
  count ← number_of parse_u64 m TagNames.msg_param_mass_gift_count
  sub_plan ← Message.tag m TagNames.msg_param_sub_plan
  ret (anon_sub_mystery_gift (record { count = count; sub_plan = sub_plan }), true)

sub_mystery_gift_arm : IrcMessage → Option Str → Attempt (Event × Bool)
unfolding anon_sub_mystery_gift_arm is_anonymous_gifter
sub_mystery_gift_arm m sender_id =
    if is_anonymous_gifter sender_id then anon_sub_mystery_gift_arm m else (do
      count ← number_of parse_u64 m TagNames.msg_param_mass_gift_count
      total ← optional (number_of parse_u32 m TagNames.msg_param_sender_count)
      sub_plan ← Message.tag m TagNames.msg_param_sub_plan
      ret (
        sub_mystery_gift
            (record { count = count; sender_total_gifts = total; sub_plan = sub_plan }),
        false,
      ))

gift_paid_upgrade_arm : IrcMessage → Attempt (Event × Bool)
unfolding parse_promotion
gift_paid_upgrade_arm m = do
  login ← Message.tag m TagNames.msg_param_sender_login
  name ← Message.tag m TagNames.msg_param_sender_name
  promo ← parse_promotion m
  ret (
    gift_paid_upgrade (record { gifter_login = login; gifter_name = name; promotion = promo }),
    false,
  )

anon_gift_paid_upgrade_arm : IrcMessage → Attempt (Event × Bool)
unfolding parse_promotion
anon_gift_paid_upgrade_arm m = do
  promo ← parse_promotion m
  ret (anon_gift_paid_upgrade (record { promotion = promo }), true)

unfoldable pub ritual_arm : IrcMessage → Attempt (Event × Bool)
ritual_arm m = do
  name ← Message.tag m TagNames.msg_param_ritual_name
  ret (ritual (record { name = name }), false)

bits_badge_tier_arm : IrcMessage → Attempt (Event × Bool)
bits_badge_tier_arm m = do
  tier ← number_of parse_u64 m TagNames.msg_param_threshold
  ret (bits_badge_tier (record { tier = tier }), false)

announcement_arm : IrcMessage → Attempt (Event × Bool)
announcement_arm m = do
  color ← optional (Message.tag m TagNames.msg_param_color)
  ret (announcement (record { highlight_color = unwrap_or (codes "PRIMARY") color }), false)

unfoldable pub event_arms : IrcMessage → Str → Option Str → List (Str × Attempt (Event × Bool))
unfolding sub_arm raid_arm sub_gift_arm anon_sub_mystery_gift_arm sub_mystery_gift_arm
    gift_paid_upgrade_arm anon_gift_paid_upgrade_arm ritual_arm bits_badge_tier_arm announcement_arm
event_arms m event_id sender_id =
    (codes "sub", sub_arm m event_id)
    ∷ (codes "resub", sub_arm m event_id)
    ∷ (codes "raid", raid_arm m)
    ∷ (codes "subgift", sub_gift_arm m event_id sender_id)
    ∷ (codes "anonsubgift", sub_gift_arm m event_id sender_id)
    ∷ (codes "anonsubmysterygift", anon_sub_mystery_gift_arm m)
    ∷ (codes "submysterygift", sub_mystery_gift_arm m sender_id)
    ∷ (codes "giftpaidupgrade", gift_paid_upgrade_arm m)
    ∷ (codes "anongiftpaidupgrade", anon_gift_paid_upgrade_arm m)
    ∷ (codes "ritual", ritual_arm m)
    ∷ (codes "bitsbadgetier", bits_badge_tier_arm m)
    ∷ (codes "announcement", announcement_arm m)
    ∷ []

-- The whole match.
unfoldable pub event_of : IrcMessage → Str → Option Str → Attempt (Event × Bool)
unfolding event_arms
event_of m event_id sender_id =
    unwrap_or (ret (unknown, true)) (lookup event_id (event_arms m event_id sender_id))
