-- ===== src/Irc/Tag.antt =====
-- irc/tags.rs: the tags that the library knows, and their names.
pub mod Names
pub mod Raw
use tmi_rs.Prelude.{List, Option, [], ◌∷◌, none, some}
use tmi_rs.Str.{Str, codes, lookup}

pub data Tag : Type 0 where
  msg_id badges badge_info display_name : Tag
  emote_only emotes flags id : Tag
  mod_tag room_id subscriber tmi_sent_ts : Tag
  turbo user_id user_type client_nonce : Tag
  first_msg reply_parent_display_name reply_parent_msg_body reply_parent_msg_id : Tag
  reply_parent_user_id reply_parent_user_login reply_thread_parent_msg_id
        reply_thread_parent_user_login :
      Tag
  followers_only r9_k rituals slow : Tag
  subs_only msg_param_cumulative_months msg_param_display_name msg_param_login : Tag
  msg_param_months msg_param_promo_gift_total msg_param_promo_name
        msg_param_recipient_display_name :
      Tag
  msg_param_recipient_id msg_param_recipient_user_name msg_param_sender_login
        msg_param_sender_name :
      Tag
  msg_param_should_share_streak msg_param_streak_months msg_param_sub_plan msg_param_sub_plan_name :
      Tag
  msg_param_viewer_count msg_param_ritual_name msg_param_threshold msg_param_gift_months : Tag
  msg_param_color login bits system_msg : Tag
  emote_sets thread_id message_id returning_chatter : Tag
  color vip target_user_id target_msg_id : Tag
  ban_duration msg_param_multimonth_duration msg_param_was_gifted msg_param_multimonth_tenure : Tag
  sent_ts msg_param_origin_id msg_param_fun_string msg_param_sender_count : Tag
  msg_param_profile_image_url msg_param_mass_gift_count msg_param_gift_month_being_redeemed
        msg_param_anon_gift :
      Tag
  custom_reward_id pinned_chat_paid_amount pinned_chat_paid_canonical_amount
        pinned_chat_paid_currency :
      Tag
  pinned_chat_paid_exponent pinned_chat_paid_level pinned_chat_paid_is_system_message : Tag
  unknown : Str → Tag

-- `Tag::as_str`
unfoldable pub as_str : Tag → Str
as_str msg_id = codes "msg-id"
as_str badges = codes "badges"
as_str badge_info = codes "badge-info"
as_str display_name = codes "display-name"
as_str emote_only = codes "emote-only"
as_str emotes = codes "emotes"
as_str flags = codes "flags"
as_str id = codes "id"
as_str mod_tag = codes "mod"
as_str room_id = codes "room-id"
as_str subscriber = codes "subscriber"
as_str tmi_sent_ts = codes "tmi-sent-ts"
as_str turbo = codes "turbo"
as_str user_id = codes "user-id"
as_str user_type = codes "user-type"
as_str client_nonce = codes "client-nonce"
as_str first_msg = codes "first-msg"
as_str reply_parent_display_name = codes "reply-parent-display-name"
as_str reply_parent_msg_body = codes "reply-parent-msg-body"
as_str reply_parent_msg_id = codes "reply-parent-msg-id"
as_str reply_parent_user_id = codes "reply-parent-user-id"
as_str reply_parent_user_login = codes "reply-parent-user-login"
as_str reply_thread_parent_msg_id = codes "reply-thread-parent-msg-id"
as_str reply_thread_parent_user_login = codes "reply-thread-parent-user-login"
as_str followers_only = codes "followers-only"
as_str r9_k = codes "r9k"
as_str rituals = codes "rituals"
as_str slow = codes "slow"
as_str subs_only = codes "subs-only"
as_str msg_param_cumulative_months = codes "msg-param-cumulative-months"
as_str msg_param_display_name = codes "msg-param-displayName"
as_str msg_param_login = codes "msg-param-login"
as_str msg_param_months = codes "msg-param-months"
as_str msg_param_promo_gift_total = codes "msg-param-promo-gift-total"
as_str msg_param_promo_name = codes "msg-param-promo-name"
as_str msg_param_recipient_display_name = codes "msg-param-recipient-display-name"
as_str msg_param_recipient_id = codes "msg-param-recipient-id"
as_str msg_param_recipient_user_name = codes "msg-param-recipient-user-name"
as_str msg_param_sender_login = codes "msg-param-sender-login"
as_str msg_param_sender_name = codes "msg-param-sender-name"
as_str msg_param_should_share_streak = codes "msg-param-should-share-streak"
as_str msg_param_streak_months = codes "msg-param-streak-months"
as_str msg_param_sub_plan = codes "msg-param-sub-plan"
as_str msg_param_sub_plan_name = codes "msg-param-sub-plan-name"
as_str msg_param_viewer_count = codes "msg-param-viewerCount"
as_str msg_param_ritual_name = codes "msg-param-ritual-name"
as_str msg_param_threshold = codes "msg-param-threshold"
as_str msg_param_gift_months = codes "msg-param-gift-months"
as_str msg_param_color = codes "msg-param-color"
as_str login = codes "login"
as_str bits = codes "bits"
as_str system_msg = codes "system-msg"
as_str emote_sets = codes "emote-sets"
as_str thread_id = codes "thread-id"
as_str message_id = codes "message-id"
as_str returning_chatter = codes "returning-chatter"
as_str color = codes "color"
as_str vip = codes "vip"
as_str target_user_id = codes "target-user-id"
as_str target_msg_id = codes "target-msg-id"
as_str ban_duration = codes "ban-duration"
as_str msg_param_multimonth_duration = codes "msg-param-multimonth-duration"
as_str msg_param_was_gifted = codes "msg-param-was-gifted"
as_str msg_param_multimonth_tenure = codes "msg-param-multimonth-tenure"
as_str sent_ts = codes "sent-ts"
as_str msg_param_origin_id = codes "msg-param-origin-id"
as_str msg_param_fun_string = codes "msg-param-fun-string"
as_str msg_param_sender_count = codes "msg-param-sender-count"
as_str msg_param_profile_image_url = codes "msg-param-profileImageURL"
as_str msg_param_mass_gift_count = codes "msg-param-mass-gift-count"
as_str msg_param_gift_month_being_redeemed = codes "msg-param-gift-month-being-redeemed"
as_str msg_param_anon_gift = codes "msg-param-anon-gift"
as_str custom_reward_id = codes "custom-reward-id"
as_str pinned_chat_paid_amount = codes "pinned-chat-paid-amount"
as_str pinned_chat_paid_canonical_amount = codes "pinned-chat-paid-amount"
as_str pinned_chat_paid_currency = codes "pinned-chat-paid-currency"
as_str pinned_chat_paid_exponent = codes "pinned-chat-paid-exponent"
as_str pinned_chat_paid_level = codes "pinned-chat-paid-level"
as_str pinned_chat_paid_is_system_message = codes "pinned-chat-paid-is-system-message"
as_str (unknown key) = key

-- The arms of the match in `Tag::parse`.
abbrev pub arms : List (Str × Tag)
arms =
    (codes "msg-id", msg_id)
    ∷ (codes "badges", badges)
    ∷ (codes "badge-info", badge_info)
    ∷ (codes "display-name", display_name)
    ∷ (codes "emote-only", emote_only)
    ∷ (codes "emotes", emotes)
    ∷ (codes "flags", flags)
    ∷ (codes "id", id)
    ∷ (codes "mod", mod_tag)
    ∷ (codes "room-id", room_id)
    ∷ (codes "subscriber", subscriber)
    ∷ (codes "tmi-sent-ts", tmi_sent_ts)
    ∷ (codes "turbo", turbo)
    ∷ (codes "user-id", user_id)
    ∷ (codes "user-type", user_type)
    ∷ (codes "client-nonce", client_nonce)
    ∷ (codes "first-msg", first_msg)
    ∷ (codes "reply-parent-display-name", reply_parent_display_name)
    ∷ (codes "reply-parent-msg-body", reply_parent_msg_body)
    ∷ (codes "reply-parent-msg-id", reply_parent_msg_id)
    ∷ (codes "reply-parent-user-id", reply_parent_user_id)
    ∷ (codes "reply-parent-user-login", reply_parent_user_login)
    ∷ (codes "reply-thread-parent-msg-id", reply_thread_parent_msg_id)
    ∷ (codes "reply-thread-parent-user-login", reply_thread_parent_user_login)
    ∷ (codes "followers-only", followers_only)
    ∷ (codes "r9k", r9_k)
    ∷ (codes "rituals", rituals)
    ∷ (codes "slow", slow)
    ∷ (codes "subs-only", subs_only)
    ∷ (codes "msg-param-cumulative-months", msg_param_cumulative_months)
    ∷ (codes "msg-param-displayName", msg_param_display_name)
    ∷ (codes "msg-param-login", msg_param_login)
    ∷ (codes "msg-param-months", msg_param_months)
    ∷ (codes "msg-param-promo-gift-total", msg_param_promo_gift_total)
    ∷ (codes "msg-param-promo-name", msg_param_promo_name)
    ∷ (codes "msg-param-recipient-display-name", msg_param_recipient_display_name)
    ∷ (codes "msg-param-recipient-id", msg_param_recipient_id)
    ∷ (codes "msg-param-recipient-user-name", msg_param_recipient_user_name)
    ∷ (codes "msg-param-sender-login", msg_param_sender_login)
    ∷ (codes "msg-param-sender-name", msg_param_sender_name)
    ∷ (codes "msg-param-should-share-streak", msg_param_should_share_streak)
    ∷ (codes "msg-param-streak-months", msg_param_streak_months)
    ∷ (codes "msg-param-sub-plan", msg_param_sub_plan)
    ∷ (codes "msg-param-sub-plan-name", msg_param_sub_plan_name)
    ∷ (codes "msg-param-viewerCount", msg_param_viewer_count)
    ∷ (codes "msg-param-ritual-name", msg_param_ritual_name)
    ∷ (codes "msg-param-threshold", msg_param_threshold)
    ∷ (codes "msg-param-gift-months", msg_param_gift_months)
    ∷ (codes "msg-param-color", msg_param_color)
    ∷ (codes "login", login)
    ∷ (codes "bits", bits)
    ∷ (codes "system-msg", system_msg)
    ∷ (codes "emote-sets", emote_sets)
    ∷ (codes "thread-id", thread_id)
    ∷ (codes "message-id", message_id)
    ∷ (codes "returning-chatter", returning_chatter)
    ∷ (codes "color", color)
    ∷ (codes "vip", vip)
    ∷ (codes "target-user-id", target_user_id)
    ∷ (codes "target-msg-id", target_msg_id)
    ∷ (codes "ban-duration", ban_duration)
    ∷ (codes "msg-param-multimonth-duration", msg_param_multimonth_duration)
    ∷ (codes "msg-param-was-gifted", msg_param_was_gifted)
    ∷ (codes "msg-param-multimonth-tenure", msg_param_multimonth_tenure)
    ∷ (codes "sent-ts", sent_ts)
    ∷ (codes "msg-param-origin-id", msg_param_origin_id)
    ∷ (codes "msg-param-fun-string", msg_param_fun_string)
    ∷ (codes "msg-param-sender-count", msg_param_sender_count)
    ∷ (codes "msg-param-profileImageURL", msg_param_profile_image_url)
    ∷ (codes "msg-param-mass-gift-count", msg_param_mass_gift_count)
    ∷ (codes "msg-param-gift-month-being-redeemed", msg_param_gift_month_being_redeemed)
    ∷ (codes "msg-param-anon-gift", msg_param_anon_gift)
    ∷ (codes "custom-reward-id", custom_reward_id)
    ∷ (codes "pinned-chat-paid-amount", pinned_chat_paid_amount)
    ∷ (codes "pinned-chat-paid-canonical-amount", pinned_chat_paid_canonical_amount)
    ∷ (codes "pinned-chat-paid-currency", pinned_chat_paid_currency)
    ∷ (codes "pinned-chat-paid-exponent", pinned_chat_paid_exponent)
    ∷ (codes "pinned-chat-paid-level", pinned_chat_paid_level)
    ∷ (codes "pinned-chat-paid-is-system-message", pinned_chat_paid_is_system_message)
    ∷ []

-- The last arm.
pub or_unknown : Option Tag → Str → Tag
or_unknown none src = unknown src
or_unknown (some tag) src = tag

-- `Tag::parse`, and `impl From<&str> for Tag`
unfoldable pub parse : Str → Tag
unfolding or_unknown
parse src = or_unknown (lookup src arms) src
