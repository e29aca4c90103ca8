-- ===== src/Irc/Tag/Names.antt =====
-- `Tag::parse` against `Tag::as_str`.
use tmi_rs.Prelude.{◌≡◌, ◌≢◌, refl, inl, inr, Option-cases, All}
use tmi_rs.Str.{Str, codes, lookup}
use tmi_rs.Str.Laws.{lookup-eq-some}
use tmi_rs.Irc.Tag.{
  Tag, msg_id, badges, badge_info, display_name, emote_only, emotes, flags, id, mod_tag, room_id,
  subscriber, tmi_sent_ts, turbo, user_id, user_type, client_nonce, first_msg,
  reply_parent_display_name, reply_parent_msg_body, reply_parent_msg_id, reply_parent_user_id,
  reply_parent_user_login, reply_thread_parent_msg_id, reply_thread_parent_user_login,
  followers_only, r9_k, rituals, slow, subs_only, msg_param_cumulative_months,
  msg_param_display_name, msg_param_login, msg_param_months, msg_param_promo_gift_total,
  msg_param_promo_name, msg_param_recipient_display_name, msg_param_recipient_id,
  msg_param_recipient_user_name, msg_param_sender_login, msg_param_sender_name,
  msg_param_should_share_streak, msg_param_streak_months, msg_param_sub_plan,
  msg_param_sub_plan_name, msg_param_viewer_count, msg_param_ritual_name, msg_param_threshold,
  msg_param_gift_months, msg_param_color, login, bits, system_msg, emote_sets, thread_id,
  message_id, returning_chatter, color, vip, target_user_id, target_msg_id, ban_duration,
  msg_param_multimonth_duration, msg_param_was_gifted, msg_param_multimonth_tenure, sent_ts,
  msg_param_origin_id, msg_param_fun_string, msg_param_sender_count, msg_param_profile_image_url,
  msg_param_mass_gift_count, msg_param_gift_month_being_redeemed, msg_param_anon_gift,
  custom_reward_id, pinned_chat_paid_amount, pinned_chat_paid_canonical_amount,
  pinned_chat_paid_currency, pinned_chat_paid_exponent, pinned_chat_paid_level,
  pinned_chat_paid_is_system_message, unknown, as_str, arms, parse,
}

abbrev pub canonical_amount_key : Str
canonical_amount_key = codes "pinned-chat-paid-canonical-amount"

-- A tag of the list whose name is its own.
abbrev pub HasOwnName : Tag → Type 0
HasOwnName pinned_chat_paid_canonical_amount = ⊥
HasOwnName (unknown key) = ⊥
HasOwnName _ = Unit {0}

-- Every tag with a name of its own is read back from that name.
pub parse-as_str : (t : Tag) → HasOwnName t → parse (as_str t) ≡ t
unfolding parse as_str lookup
parse-as_str msg_id h = refl
parse-as_str badges h = refl
parse-as_str badge_info h = refl
parse-as_str display_name h = refl
parse-as_str emote_only h = refl
parse-as_str emotes h = refl
parse-as_str flags h = refl
parse-as_str id h = refl
parse-as_str mod_tag h = refl
parse-as_str room_id h = refl
parse-as_str subscriber h = refl
parse-as_str tmi_sent_ts h = refl
parse-as_str turbo h = refl
parse-as_str user_id h = refl
parse-as_str user_type h = refl
parse-as_str client_nonce h = refl
parse-as_str first_msg h = refl
parse-as_str reply_parent_display_name h = refl
parse-as_str reply_parent_msg_body h = refl
parse-as_str reply_parent_msg_id h = refl
parse-as_str reply_parent_user_id h = refl
parse-as_str reply_parent_user_login h = refl
parse-as_str reply_thread_parent_msg_id h = refl
parse-as_str reply_thread_parent_user_login h = refl
parse-as_str followers_only h = refl
parse-as_str r9_k h = refl
parse-as_str rituals h = refl
parse-as_str slow h = refl
parse-as_str subs_only h = refl
parse-as_str msg_param_cumulative_months h = refl
parse-as_str msg_param_display_name h = refl
parse-as_str msg_param_login h = refl
parse-as_str msg_param_months h = refl
parse-as_str msg_param_promo_gift_total h = refl
parse-as_str msg_param_promo_name h = refl
parse-as_str msg_param_recipient_display_name h = refl
parse-as_str msg_param_recipient_id h = refl
parse-as_str msg_param_recipient_user_name h = refl
parse-as_str msg_param_sender_login h = refl
parse-as_str msg_param_sender_name h = refl
parse-as_str msg_param_should_share_streak h = refl
parse-as_str msg_param_streak_months h = refl
parse-as_str msg_param_sub_plan h = refl
parse-as_str msg_param_sub_plan_name h = refl
parse-as_str msg_param_viewer_count h = refl
parse-as_str msg_param_ritual_name h = refl
parse-as_str msg_param_threshold h = refl
parse-as_str msg_param_gift_months h = refl
parse-as_str msg_param_color h = refl
parse-as_str login h = refl
parse-as_str bits h = refl
parse-as_str system_msg h = refl
parse-as_str emote_sets h = refl
parse-as_str thread_id h = refl
parse-as_str message_id h = refl
parse-as_str returning_chatter h = refl
parse-as_str color h = refl
parse-as_str vip h = refl
parse-as_str target_user_id h = refl
parse-as_str target_msg_id h = refl
parse-as_str ban_duration h = refl
parse-as_str msg_param_multimonth_duration h = refl
parse-as_str msg_param_was_gifted h = refl
parse-as_str msg_param_multimonth_tenure h = refl
parse-as_str sent_ts h = refl
parse-as_str msg_param_origin_id h = refl
parse-as_str msg_param_fun_string h = refl
parse-as_str msg_param_sender_count h = refl
parse-as_str msg_param_profile_image_url h = refl
parse-as_str msg_param_mass_gift_count h = refl
parse-as_str msg_param_gift_month_being_redeemed h = refl
parse-as_str msg_param_anon_gift h = refl
parse-as_str custom_reward_id h = refl
parse-as_str pinned_chat_paid_amount h = refl
parse-as_str pinned_chat_paid_canonical_amount h = absurd h
parse-as_str pinned_chat_paid_currency h = refl
parse-as_str pinned_chat_paid_exponent h = refl
parse-as_str pinned_chat_paid_level h = refl
parse-as_str pinned_chat_paid_is_system_message h = refl
parse-as_str (unknown key) h = absurd h

arms_named : All (λ arm. arm.0 ≢ canonical_amount_key → as_str arm.1 ≡ arm.0) arms
unfolding as_str
arms_named = (
  λ _. refl,
  (
    λ _. refl,
    (
      λ _. refl,
      (
        λ _. refl,
        (
          λ _. refl,
          (
            λ _. refl,
            (
              λ _. refl,
              (
                λ _. refl,
                (
                  λ _. refl,
                  (
                    λ _. refl,
                    (
                      λ _. refl,
                      (
                        λ _. refl,
                        (
                          λ _. refl,
                          (
                            λ _. refl,
                            (
                              λ _. refl,
                              (
                                λ _. refl,
                                (
                                  λ _. refl,
                                  (
                                    λ _. refl,
                                    (
                                      λ _. refl,
                                      (
                                        λ _. refl,
                                        (
                                          λ _. refl,
                                          (
                                            λ _. refl,
                                            (
                                              λ _. refl,
                                              (
                                                λ _. refl,
                                                (
                                                  λ _. refl,
                                                  (
                                                    λ _. refl,
                                                    (
                                                      λ _. refl,
                                                      (
                                                        λ _. refl,
                                                        (
                                                          λ _. refl,
                                                          (
                                                            λ _. refl,
                                                            (
                                                            λ _. refl,
                                                            (
                                                            λ _. refl,
                                                            (
                                                            λ _. refl,
                                                            (
                                                            λ _. refl,
                                                            (
                                                            λ _. refl,
                                                            (
                                                            λ _. refl,
                                                            (
                                                            λ _. refl,
                                                            (
                                                            λ _. refl,
                                                            (
                                                            λ _. refl,
                                                            (
                                                            λ _. refl,
                                                            (
                                                            λ _. refl,
                                                            (
                                                            λ _. refl,
                                                            (
                                                            λ _. refl,
                                                            (
                                                            λ _. refl,
                                                            (
                                                            λ _. refl,
                                                            (
                                                            λ _. refl,
                                                            (
                                                            λ _. refl,
                                                            (
                                                            λ _. refl,
                                                            (
                                                            λ _. refl,
                                                            (
                                                            λ _. refl,
                                                            (
                                                            λ _. refl,
                                                            (
                                                            λ _. refl,
                                                            (
                                                            λ _. refl,
                                                            (
                                                            λ _. refl,
                                                            (
                                                            λ _. refl,
                                                            (
                                                            λ _. refl,
                                                            (
                                                            λ _. refl,
                                                            (
                                                            λ _. refl,
                                                            (
                                                            λ _. refl,
                                                            (
                                                            λ _. refl,
                                                            (
                                                            λ _. refl,
                                                            (
                                                            λ _. refl,
                                                            (
                                                            λ _. refl,
                                                            (
                                                            λ _. refl,
                                                            (
                                                            λ _. refl,
                                                            (
                                                            λ _. refl,
                                                            (
                                                            λ _. refl,
                                                            (
                                                            λ _. refl,
                                                            (
                                                            λ _. refl,
                                                            (
                                                            λ _. refl,
                                                            (
                                                            λ _. refl,
                                                            (
                                                            λ _. refl,
                                                            (
                                                            λ _. refl,
                                                            (
                                                            λ _. refl,
                                                            (
                                                            λ h. absurd (h refl),
                                                            (
                                                            λ _. refl,
                                                            (
                                                            λ _. refl,
                                                            (λ _. refl, (λ _. refl, tt)),
                                                            ),
                                                            ),
                                                            ),
                                                            ),
                                                            ),
                                                            ),
                                                            ),
                                                            ),
                                                            ),
                                                            ),
                                                            ),
                                                            ),
                                                            ),
                                                            ),
                                                            ),
                                                            ),
                                                            ),
                                                            ),
                                                            ),
                                                            ),
                                                            ),
                                                            ),
                                                            ),
                                                            ),
                                                            ),
                                                            ),
                                                            ),
                                                            ),
                                                            ),
                                                            ),
                                                            ),
                                                            ),
                                                            ),
                                                            ),
                                                            ),
                                                            ),
                                                            ),
                                                            ),
                                                            ),
                                                            ),
                                                            ),
                                                            ),
                                                            ),
                                                            ),
                                                            ),
                                                            ),
                                                            ),
                                                          ),
                                                        ),
                                                      ),
                                                    ),
                                                  ),
                                                ),
                                              ),
                                            ),
                                          ),
                                        ),
                                      ),
                                    ),
                                  ),
                                ),
                              ),
                            ),
                          ),
                        ),
                      ),
                    ),
                  ),
                ),
              ),
            ),
          ),
        ),
      ),
    ),
  ),
)

-- A key keeps its text when it is parsed and printed, but for `canonical_amount_key`.
pub as_str-parse : (key : Str) → key ≢ canonical_amount_key → as_str (parse key) ≡ key
unfolding parse as_str
as_str-parse key h = elim (Option-cases (lookup key arms)) [
  | inl miss ↦ rw miss refl
  | inr (t, hit) ↦
      rw hit
        (lookup-eq-some (λ k t. k ≢ canonical_amount_key → as_str t ≡ k) key arms arms_named hit h)
]

-- The tag `PinnedChatPaidCanonicalAmount` is printed as the name of `PinnedChatPaidAmount`.
canonical_amount_name : as_str (parse canonical_amount_key) ≡ as_str pinned_chat_paid_amount
unfolding parse as_str lookup
canonical_amount_name = refl
