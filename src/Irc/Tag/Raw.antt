-- ===== src/Irc/Tag/Raw.antt =====
-- irc/tags.rs: `RawTag`, a tag whose unknown key is a span of the line.
pub mod Agreement
use tmi_rs.Prelude.{List, Option, [], ◌∷◌, none, some, Outcome, done, ◌>>=◌}
use tmi_rs.Str.{Str, codes, lookup}
use tmi_rs.Irc.Span.{Span, index}
use tmi_rs.Irc.Tag.{Tag}

pub data RawTag : Type 0 where
  msg_id badges badge_info : RawTag
  display_name emote_only emotes : RawTag
  flags id mod_tag : RawTag
  room_id subscriber tmi_sent_ts : RawTag
  turbo user_id user_type : RawTag
  client_nonce first_msg reply_parent_display_name : RawTag
  reply_parent_msg_body reply_parent_msg_id reply_parent_user_id : RawTag
  reply_parent_user_login reply_thread_parent_msg_id reply_thread_parent_user_login : RawTag
  followers_only r9_k rituals : RawTag
  slow subs_only msg_param_cumulative_months : RawTag
  msg_param_display_name msg_param_login msg_param_months : RawTag
  msg_param_promo_gift_total msg_param_promo_name msg_param_recipient_display_name : RawTag
  msg_param_recipient_id msg_param_recipient_user_name msg_param_sender_login : RawTag
  msg_param_sender_name msg_param_should_share_streak msg_param_streak_months : RawTag
  msg_param_sub_plan msg_param_sub_plan_name msg_param_viewer_count : RawTag
  msg_param_ritual_name msg_param_threshold msg_param_gift_months : RawTag
  msg_param_color login bits : RawTag
  system_msg emote_sets thread_id : RawTag
  message_id returning_chatter color : RawTag
  vip target_user_id target_msg_id : RawTag
  ban_duration msg_param_multimonth_duration msg_param_was_gifted : RawTag
  msg_param_multimonth_tenure sent_ts msg_param_origin_id : RawTag
  msg_param_fun_string msg_param_sender_count msg_param_profile_image_url : RawTag
  msg_param_mass_gift_count msg_param_gift_month_being_redeemed msg_param_anon_gift : RawTag
  custom_reward_id pinned_chat_paid_amount pinned_chat_paid_canonical_amount : RawTag
  pinned_chat_paid_currency pinned_chat_paid_exponent pinned_chat_paid_level : RawTag
  pinned_chat_paid_is_system_message : RawTag
  unknown : Span → RawTag

-- `RawTag::get`
unfoldable pub get : RawTag → Str → Outcome Tag
get RawTag.msg_id src = done Tag.msg_id
get RawTag.badges src = done Tag.badges
get RawTag.badge_info src = done Tag.badge_info
get RawTag.display_name src = done Tag.display_name
get RawTag.emote_only src = done Tag.emote_only
get RawTag.emotes src = done Tag.emotes
get RawTag.flags src = done Tag.flags
get RawTag.id src = done Tag.id
get RawTag.mod_tag src = done Tag.mod_tag
get RawTag.room_id src = done Tag.room_id
get RawTag.subscriber src = done Tag.subscriber
get RawTag.tmi_sent_ts src = done Tag.tmi_sent_ts
get RawTag.turbo src = done Tag.turbo
get RawTag.user_id src = done Tag.user_id
get RawTag.user_type src = done Tag.user_type
get RawTag.client_nonce src = done Tag.client_nonce
get RawTag.first_msg src = done Tag.first_msg
get RawTag.reply_parent_display_name src = done Tag.reply_parent_display_name
get RawTag.reply_parent_msg_body src = done Tag.reply_parent_msg_body
get RawTag.reply_parent_msg_id src = done Tag.reply_parent_msg_id
get RawTag.reply_parent_user_id src = done Tag.reply_parent_user_id
get RawTag.reply_parent_user_login src = done Tag.reply_parent_user_login
get RawTag.reply_thread_parent_msg_id src = done Tag.reply_thread_parent_msg_id
get RawTag.reply_thread_parent_user_login src = done Tag.reply_thread_parent_user_login
get RawTag.followers_only src = done Tag.followers_only
get RawTag.r9_k src = done Tag.r9_k
get RawTag.rituals src = done Tag.rituals
get RawTag.slow src = done Tag.slow
get RawTag.subs_only src = done Tag.subs_only
get RawTag.msg_param_cumulative_months src = done Tag.msg_param_cumulative_months
get RawTag.msg_param_display_name src = done Tag.msg_param_display_name
get RawTag.msg_param_login src = done Tag.msg_param_login
get RawTag.msg_param_months src = done Tag.msg_param_months
get RawTag.msg_param_promo_gift_total src = done Tag.msg_param_promo_gift_total
get RawTag.msg_param_promo_name src = done Tag.msg_param_promo_name
get RawTag.msg_param_recipient_display_name src = done Tag.msg_param_recipient_display_name
get RawTag.msg_param_recipient_id src = done Tag.msg_param_recipient_id
get RawTag.msg_param_recipient_user_name src = done Tag.msg_param_recipient_user_name
get RawTag.msg_param_sender_login src = done Tag.msg_param_sender_login
get RawTag.msg_param_sender_name src = done Tag.msg_param_sender_name
get RawTag.msg_param_should_share_streak src = done Tag.msg_param_should_share_streak
get RawTag.msg_param_streak_months src = done Tag.msg_param_streak_months
get RawTag.msg_param_sub_plan src = done Tag.msg_param_sub_plan
get RawTag.msg_param_sub_plan_name src = done Tag.msg_param_sub_plan_name
get RawTag.msg_param_viewer_count src = done Tag.msg_param_viewer_count
get RawTag.msg_param_ritual_name src = done Tag.msg_param_ritual_name
get RawTag.msg_param_threshold src = done Tag.msg_param_threshold
get RawTag.msg_param_gift_months src = done Tag.msg_param_gift_months
get RawTag.msg_param_color src = done Tag.msg_param_color
get RawTag.login src = done Tag.login
get RawTag.bits src = done Tag.bits
get RawTag.system_msg src = done Tag.system_msg
get RawTag.emote_sets src = done Tag.emote_sets
get RawTag.thread_id src = done Tag.thread_id
get RawTag.message_id src = done Tag.message_id
get RawTag.returning_chatter src = done Tag.returning_chatter
get RawTag.color src = done Tag.color
get RawTag.vip src = done Tag.vip
get RawTag.target_user_id src = done Tag.target_user_id
get RawTag.target_msg_id src = done Tag.target_msg_id
get RawTag.ban_duration src = done Tag.ban_duration
get RawTag.msg_param_multimonth_duration src = done Tag.msg_param_multimonth_duration
get RawTag.msg_param_was_gifted src = done Tag.msg_param_was_gifted
get RawTag.msg_param_multimonth_tenure src = done Tag.msg_param_multimonth_tenure
get RawTag.sent_ts src = done Tag.sent_ts
get RawTag.msg_param_origin_id src = done Tag.msg_param_origin_id
get RawTag.msg_param_fun_string src = done Tag.msg_param_fun_string
get RawTag.msg_param_sender_count src = done Tag.msg_param_sender_count
get RawTag.msg_param_profile_image_url src = done Tag.msg_param_profile_image_url
get RawTag.msg_param_mass_gift_count src = done Tag.msg_param_mass_gift_count
get RawTag.msg_param_gift_month_being_redeemed src = done Tag.msg_param_gift_month_being_redeemed
get RawTag.msg_param_anon_gift src = done Tag.msg_param_anon_gift
get RawTag.custom_reward_id src = done Tag.custom_reward_id
get RawTag.pinned_chat_paid_amount src = done Tag.pinned_chat_paid_amount
get RawTag.pinned_chat_paid_canonical_amount src = done Tag.pinned_chat_paid_canonical_amount
get RawTag.pinned_chat_paid_currency src = done Tag.pinned_chat_paid_currency
get RawTag.pinned_chat_paid_exponent src = done Tag.pinned_chat_paid_exponent
get RawTag.pinned_chat_paid_level src = done Tag.pinned_chat_paid_level
get RawTag.pinned_chat_paid_is_system_message src = done Tag.pinned_chat_paid_is_system_message
get (RawTag.unknown span) src = do key ← index src span; done (Tag.unknown key)

-- The arms of the match in `RawTag::parse`.
abbrev pub arms : List (Str × RawTag)
arms =
    (codes "msg-id", RawTag.msg_id)
    ∷ (codes "badges", RawTag.badges)
    ∷ (codes "badge-info", RawTag.badge_info)
    ∷ (codes "display-name", RawTag.display_name)
    ∷ (codes "emote-only", RawTag.emote_only)
    ∷ (codes "emotes", RawTag.emotes)
    ∷ (codes "flags", RawTag.flags)
    ∷ (codes "id", RawTag.id)
    ∷ (codes "mod", RawTag.mod_tag)
    ∷ (codes "room-id", RawTag.room_id)
    ∷ (codes "subscriber", RawTag.subscriber)
    ∷ (codes "tmi-sent-ts", RawTag.tmi_sent_ts)
    ∷ (codes "turbo", RawTag.turbo)
    ∷ (codes "user-id", RawTag.user_id)
    ∷ (codes "user-type", RawTag.user_type)
    ∷ (codes "client-nonce", RawTag.client_nonce)
    ∷ (codes "first-msg", RawTag.first_msg)
    ∷ (codes "reply-parent-display-name", RawTag.reply_parent_display_name)
    ∷ (codes "reply-parent-msg-body", RawTag.reply_parent_msg_body)
    ∷ (codes "reply-parent-msg-id", RawTag.reply_parent_msg_id)
    ∷ (codes "reply-parent-user-id", RawTag.reply_parent_user_id)
    ∷ (codes "reply-parent-user-login", RawTag.reply_parent_user_login)
    ∷ (codes "reply-thread-parent-msg-id", RawTag.reply_thread_parent_msg_id)
    ∷ (codes "reply-thread-parent-user-login", RawTag.reply_thread_parent_user_login)
    ∷ (codes "followers-only", RawTag.followers_only)
    ∷ (codes "r9k", RawTag.r9_k)
    ∷ (codes "rituals", RawTag.rituals)
    ∷ (codes "slow", RawTag.slow)
    ∷ (codes "subs-only", RawTag.subs_only)
    ∷ (codes "msg-param-cumulative-months", RawTag.msg_param_cumulative_months)
    ∷ (codes "msg-param-displayName", RawTag.msg_param_display_name)
    ∷ (codes "msg-param-login", RawTag.msg_param_login)
    ∷ (codes "msg-param-months", RawTag.msg_param_months)
    ∷ (codes "msg-param-promo-gift-total", RawTag.msg_param_promo_gift_total)
    ∷ (codes "msg-param-promo-name", RawTag.msg_param_promo_name)
    ∷ (codes "msg-param-recipient-display-name", RawTag.msg_param_recipient_display_name)
    ∷ (codes "msg-param-recipient-id", RawTag.msg_param_recipient_id)
    ∷ (codes "msg-param-recipient-user-name", RawTag.msg_param_recipient_user_name)
    ∷ (codes "msg-param-sender-login", RawTag.msg_param_sender_login)
    ∷ (codes "msg-param-sender-name", RawTag.msg_param_sender_name)
    ∷ (codes "msg-param-should-share-streak", RawTag.msg_param_should_share_streak)
    ∷ (codes "msg-param-streak-months", RawTag.msg_param_streak_months)
    ∷ (codes "msg-param-sub-plan", RawTag.msg_param_sub_plan)
    ∷ (codes "msg-param-sub-plan-name", RawTag.msg_param_sub_plan_name)
    ∷ (codes "msg-param-viewerCount", RawTag.msg_param_viewer_count)
    ∷ (codes "msg-param-ritual-name", RawTag.msg_param_ritual_name)
    ∷ (codes "msg-param-threshold", RawTag.msg_param_threshold)
    ∷ (codes "msg-param-gift-months", RawTag.msg_param_gift_months)
    ∷ (codes "msg-param-color", RawTag.msg_param_color)
    ∷ (codes "login", RawTag.login)
    ∷ (codes "bits", RawTag.bits)
    ∷ (codes "system-msg", RawTag.system_msg)
    ∷ (codes "emote-sets", RawTag.emote_sets)
    ∷ (codes "thread-id", RawTag.thread_id)
    ∷ (codes "message-id", RawTag.message_id)
    ∷ (codes "returning-chatter", RawTag.returning_chatter)
    ∷ (codes "color", RawTag.color)
    ∷ (codes "vip", RawTag.vip)
    ∷ (codes "target-user-id", RawTag.target_user_id)
    ∷ (codes "target-msg-id", RawTag.target_msg_id)
    ∷ (codes "ban-duration", RawTag.ban_duration)
    ∷ (codes "msg-param-multimonth-duration", RawTag.msg_param_multimonth_duration)
    ∷ (codes "msg-param-was-gifted", RawTag.msg_param_was_gifted)
    ∷ (codes "msg-param-multimonth-tenure", RawTag.msg_param_multimonth_tenure)
    ∷ (codes "sent-ts", RawTag.sent_ts)
    ∷ (codes "msg-param-origin-id", RawTag.msg_param_origin_id)
    ∷ (codes "msg-param-fun-string", RawTag.msg_param_fun_string)
    ∷ (codes "msg-param-sender-count", RawTag.msg_param_sender_count)
    ∷ (codes "msg-param-profileImageURL", RawTag.msg_param_profile_image_url)
    ∷ (codes "msg-param-mass-gift-count", RawTag.msg_param_mass_gift_count)
    ∷ (codes "msg-param-gift-month-being-redeemed", RawTag.msg_param_gift_month_being_redeemed)
    ∷ (codes "msg-param-anon-gift", RawTag.msg_param_anon_gift)
    ∷ (codes "custom-reward-id", RawTag.custom_reward_id)
    ∷ (codes "pinned-chat-paid-amount", RawTag.pinned_chat_paid_amount)
    ∷ (codes "pinned-chat-paid-canonical-amount", RawTag.pinned_chat_paid_canonical_amount)
    ∷ (codes "pinned-chat-paid-currency", RawTag.pinned_chat_paid_currency)
    ∷ (codes "pinned-chat-paid-exponent", RawTag.pinned_chat_paid_exponent)
    ∷ (codes "pinned-chat-paid-level", RawTag.pinned_chat_paid_level)
    ∷ (codes "pinned-chat-paid-is-system-message", RawTag.pinned_chat_paid_is_system_message)
    ∷ []

pub known_or_unknown : Option RawTag → Span → RawTag
known_or_unknown (some tag) span = tag
known_or_unknown none span = RawTag.unknown span

-- `RawTag::parse`
unfoldable pub parse : Str → Span → Outcome RawTag
unfolding known_or_unknown
parse src span = do key ← index src span; done (known_or_unknown (lookup key arms) span)
