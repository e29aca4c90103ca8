-- ===== src/Msg/Line/Events.antt =====
-- msg/user_notice.rs: the tags of each event, and the event that is made of them.
use tmi_rs.Prelude.{
  ℕ, Bool, true, false, ◌⊎◌, inl, inr, List, Option, some, bind?, String, ◌≡◌, refl, sym, ap, ◌∙◌,
  if◌then◌else◌, done,
}
use tmi_rs.Str.{Str, codes, eq, lookup}
use tmi_rs.Str.Numbers.{parse_u32, parse_u64}
use tmi_rs.Irc.Tag as TagNames
use tmi_rs.Irc.Message
use tmi_rs.Irc.Message.{IrcMessage}
use tmi_rs.Irc.Message.Line.{Parts, Says, whole}
use tmi_rs.Irc.Message.Lookup.{first_value}
use tmi_rs.Msg.Badge.{unwrap_or}
use tmi_rs.Msg.Fields.{User, number_of}
use tmi_rs.Msg.Event.{
  Event, sub_or_resub, raid, sub_gift, sub_mystery_gift, anon_sub_mystery_gift, gift_paid_upgrade,
  anon_gift_paid_upgrade, ritual, bits_badge_tier, announcement, parse_promotion, event_of,
}
use tmi_rs.Msg.Line.Said.{
  FromGifter, IsGiven, HasStreak, promo, is_anonymous_gifter-FromUser,
  is_anonymous_gifter-FromGifter, is_anonymous_gifter-IsGiven, if_positive-HasStreak,
  promotion-promo,
}
use tmi_rs.Msg.Line.{tag-first_value, number_of-first_value}

-- The tags have this value under a name, or a number.
abbrev pub Has : List (Str × Str) → String → Str → Type 0
Has tags key value = first_value (codes key) tags ≡ some value

abbrev pub HasNumber : List (Str × Str) → String → ℕ → Type 0
HasNumber tags key n = bind? (first_value (codes key) tags) parse_u64 ≡ some n

-- Who gets a gift.
pub record Recipient (tags : List (Str × Str)) (u : User) : Type 0 where
  pub id : Has tags "msg-param-recipient-id" u.id
  pub login : Has tags "msg-param-recipient-user-name" u.login
  pub name : Has tags "msg-param-recipient-display-name" u.name

-- The tags announce this event under this id, with an anonymous sender or with one that is named.
pub data Announces (tags : List (Str × Str)) (id : Str) (e : Event) (anon : Bool) : Type 0 where
  subscribes :
      (again : Bool) (months : ℕ) (streak : Option ℕ) (plan name : Str)
      → id ≡ (if again then codes "resub" else codes "sub")
      → HasNumber tags "msg-param-cumulative-months" months
      → Has tags "msg-param-sub-plan" plan
      → Has tags "msg-param-sub-plan-name" name
      → HasStreak tags streak
      → e
        ≡ sub_or_resub (record {
          is_resub = again;
          cumulative_months = months;
          streak_months = streak;
          sub_plan = plan;
          sub_plan_name = name;
        })
      → anon ≡ false
      → Announces tags id e anon
  raids :
      (viewers : ℕ) (url : Str)
      → id ≡ codes "raid"
      → HasNumber tags "msg-param-viewerCount" viewers
      → Has tags "msg-param-profileImageURL" url
      → e ≡ raid (record { viewer_count = viewers; profile_image_url = url })
      → anon ≡ false
      → Announces tags id e anon
  gifts :
      (anonymously : Bool) (months gifted : ℕ) (recipient : User) (plan name : Str)
      → id ≡ (if anonymously then codes "anonsubgift" else codes "subgift")
      → Recipient tags recipient
      → HasNumber tags "msg-param-months" months
      → HasNumber tags "msg-param-gift-months" gifted
      → Has tags "msg-param-sub-plan" plan
      → Has tags "msg-param-sub-plan-name" name
      → e
        ≡ sub_gift (record {
          cumulative_months = months;
          recipient = recipient;
          sub_plan = plan;
          sub_plan_name = name;
          num_gifted_months = gifted;
        })
      → IsGiven tags anonymously anon
      → Announces tags id e anon
  gifts_to_many :
      (count : ℕ) (plan : Str)
      → id ≡ codes "submysterygift"
      → ¬ FromGifter tags
      → HasNumber tags "msg-param-mass-gift-count" count
      → Has tags "msg-param-sub-plan" plan
      → e
        ≡ sub_mystery_gift (record {
          count = count;
          sender_total_gifts = bind? (first_value (codes "msg-param-sender-count") tags) parse_u32;
          sub_plan = plan;
        })
      → anon ≡ false
      → Announces tags id e anon
  gifts_to_many_anonymously :
      (count : ℕ) (plan : Str)
      → (id ≡ codes "anonsubmysterygift") ⊎ ((id ≡ codes "submysterygift") × FromGifter tags)
      → HasNumber tags "msg-param-mass-gift-count" count
      → Has tags "msg-param-sub-plan" plan
      → e ≡ anon_sub_mystery_gift (record { count = count; sub_plan = plan })
      → anon ≡ true
      → Announces tags id e anon
  upgrades :
      (login name : Str)
      → id ≡ codes "giftpaidupgrade"
      → Has tags "msg-param-sender-login" login
      → Has tags "msg-param-sender-name" name
      → e
        ≡ gift_paid_upgrade
            (record { gifter_login = login; gifter_name = name; promotion = promo tags })
      → anon ≡ false
      → Announces tags id e anon
  upgrades_anonymous_gift :
      id ≡ codes "anongiftpaidupgrade"
      → e ≡ anon_gift_paid_upgrade (record { promotion = promo tags })
      → anon ≡ true
      → Announces tags id e anon
  performs :
      (name : Str)
      → id ≡ codes "ritual"
      → Has tags "msg-param-ritual-name" name
      → e ≡ ritual (record { name = name })
      → anon ≡ false
      → Announces tags id e anon
  earns :
      (tier : ℕ)
      → id ≡ codes "bitsbadgetier"
      → HasNumber tags "msg-param-threshold" tier
      → e ≡ bits_badge_tier (record { tier = tier })
      → anon ≡ false
      → Announces tags id e anon
  says :
      id ≡ codes "announcement"
      → e
        ≡ announcement (record {
          highlight_color =
              unwrap_or (codes "PRIMARY") (first_value (codes "msg-param-color") tags);
        })
      → anon ≡ false
      → Announces tags id e anon

module _ (m : IrcMessage) (p : Parts) (says_parts : Says m p) where
  tag-Has :
      (t : TagNames.Tag) (value : Str)
      → first_value (TagNames.as_str t) p.tags ≡ some value
      → Message.tag m t ≡ done (some value)
  tag-Has t value has = tag-first_value m (whole p) says_parts t ∙ ap done has

  number_of-HasNumber :
      (t : TagNames.Tag) (n : ℕ)
      → bind? (first_value (TagNames.as_str t) p.tags) parse_u64 ≡ some n
      → number_of parse_u64 m t ≡ done (some n)
  number_of-HasNumber t n has =
      number_of-first_value m (whole p) says_parts parse_u64 t ∙ ap done has

  parse_promotion-promo : parse_promotion m ≡ done (some (promo p.tags))
  unfolding parse_promotion TagNames.as_str
  parse_promotion-promo =
      rw
        (
          number_of-first_value m (whole p) says_parts parse_u64
              TagNames.msg_param_promo_gift_total,
          tag-first_value m (whole p) says_parts TagNames.msg_param_promo_name,
        )
        (ap (λ o. done (some o)) (promotion-promo p.tags))

  -- The event of a line that announces it.
  pub event_of-Announces :
      (id : Str) (e : Event) (anon : Bool)
      → Announces p.tags id e anon
      → event_of m id (first_value (codes "user-id") p.tags) ≡ done (some (e, anon))
  unfolding event_of lookup eq TagNames.as_str
  event_of-Announces id e anon (raids viewers url is_id count has same flag) =
      rw
        (
          is_id,
          number_of-HasNumber TagNames.msg_param_viewer_count viewers count,
          tag-Has TagNames.msg_param_profile_image_url url has,
          same,
          flag,
        )
        refl
  event_of-Announces id e anon
        (subscribes true months streak plan name is_id count has has' lasts same flag) =
      rw
        (
          is_id,
          number_of-HasNumber TagNames.msg_param_cumulative_months months count,
          number_of-first_value m (whole p) says_parts parse_u64 TagNames.msg_param_streak_months,
          if_positive-HasStreak p.tags streak lasts,
          tag-Has TagNames.msg_param_sub_plan plan has,
          tag-Has TagNames.msg_param_sub_plan_name name has',
          same,
          flag,
        )
        refl
  event_of-Announces id e anon (upgrades login name is_id has has' same flag) =
      rw
        (
          is_id,
          tag-Has TagNames.msg_param_sender_login login has,
          tag-Has TagNames.msg_param_sender_name name has',
          parse_promotion-promo,
          same,
          flag,
        )
        refl
  event_of-Announces id e anon
        (subscribes false months streak plan name is_id count has has' lasts same flag) =
      rw
        (
          is_id,
          number_of-HasNumber TagNames.msg_param_cumulative_months months count,
          number_of-first_value m (whole p) says_parts parse_u64 TagNames.msg_param_streak_months,
          if_positive-HasStreak p.tags streak lasts,
          tag-Has TagNames.msg_param_sub_plan plan has,
          tag-Has TagNames.msg_param_sub_plan_name name has',
          same,
          flag,
        )
        refl
  event_of-Announces id e anon
        (gifts true months gifted recipient plan name is_id who count count' has has' same given) =
      rw
        (
          is_id,
          number_of-HasNumber TagNames.msg_param_months months count,
          tag-Has TagNames.msg_param_recipient_id recipient.id who.id,
          tag-Has TagNames.msg_param_recipient_user_name recipient.login who.login,
          tag-Has TagNames.msg_param_recipient_display_name recipient.name who.name,
          tag-Has TagNames.msg_param_sub_plan plan has,
          tag-Has TagNames.msg_param_sub_plan_name name has',
          number_of-HasNumber TagNames.msg_param_gift_months gifted count',
          same,
          sym (is_anonymous_gifter-IsGiven p.tags _ anon given),
        )
        refl
  event_of-Announces id e anon
        (gifts false months gifted recipient plan name is_id who count count' has has' same given) =
      rw
        (
          is_id,
          number_of-HasNumber TagNames.msg_param_months months count,
          tag-Has TagNames.msg_param_recipient_id recipient.id who.id,
          tag-Has TagNames.msg_param_recipient_user_name recipient.login who.login,
          tag-Has TagNames.msg_param_recipient_display_name recipient.name who.name,
          tag-Has TagNames.msg_param_sub_plan plan has,
          tag-Has TagNames.msg_param_sub_plan_name name has',
          number_of-HasNumber TagNames.msg_param_gift_months gifted count',
          same,
          sym (is_anonymous_gifter-IsGiven p.tags _ anon given),
        )
        refl
  event_of-Announces id e anon (gifts_to_many count plan is_id open_gift has has' same flag) =
      rw
        (
          is_id,
          is_anonymous_gifter-FromUser p.tags open_gift,
          number_of-HasNumber TagNames.msg_param_mass_gift_count count has,
          number_of-first_value m (whole p) says_parts parse_u32 TagNames.msg_param_sender_count,
          tag-Has TagNames.msg_param_sub_plan plan has',
          same,
          flag,
        )
        refl
  event_of-Announces id e anon
        (gifts_to_many_anonymously count plan (inl is_id) has has' same flag) =
      rw
        (
          is_id,
          number_of-HasNumber TagNames.msg_param_mass_gift_count count has,
          tag-Has TagNames.msg_param_sub_plan plan has',
          same,
          flag,
        )
        refl
  event_of-Announces id e anon
        (gifts_to_many_anonymously count plan (inr (is_id, hidden)) has has' same flag) =
      rw
        (
          is_id,
          is_anonymous_gifter-FromGifter p.tags hidden,
          number_of-HasNumber TagNames.msg_param_mass_gift_count count has,
          tag-Has TagNames.msg_param_sub_plan plan has',
          same,
          flag,
        )
        refl
  event_of-Announces id e anon (upgrades_anonymous_gift is_id same flag) =
      rw (is_id, parse_promotion-promo, same, flag) refl
  event_of-Announces id e anon (performs name is_id has same flag) =
      rw (is_id, tag-Has TagNames.msg_param_ritual_name name has, same, flag) refl
  event_of-Announces id e anon (earns tier is_id count same flag) =
      rw (is_id, number_of-HasNumber TagNames.msg_param_threshold tier count, same, flag) refl
  event_of-Announces id e anon (says is_id same flag) =
      rw (is_id, tag-first_value m (whole p) says_parts TagNames.msg_param_color, same, flag) refl
