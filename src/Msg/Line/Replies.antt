-- ===== src/Msg/Line/Replies.antt =====
-- msg/privmsg.rs: the optional parts of a chat message, as the tags of a line hold them.
use tmi_rs.Prelude.{List, Option, some, bind?, String, ◌≡◌, arith, done}
use tmi_rs.Str.{Str, codes}
use tmi_rs.Str.Numbers.{parse_i64}
use tmi_rs.Irc.Tag as TagNames
use tmi_rs.Irc.Message.{IrcMessage}
use tmi_rs.Irc.Message.Line.{Parts, Says, whole}
use tmi_rs.Irc.Message.Lookup.{first_value}
use tmi_rs.Msg.Fields.{parse_bool}
use tmi_rs.Msg.PinnedChat.{PinnedChat, from_str, pinned_chat_of}
use tmi_rs.Msg.Privmsg.{Reply, reply_of}
use tmi_rs.Msg.Line.{tag-first_value, number_of-first_value}

-- A value that must be there, and what is made of it.
abbrev with_tag {ℓ} : {A : Type ℓ} → List (Str × Str) → String → (Str → Option A) → Option A
with_tag tags key f = bind? (first_value (codes key) tags) f

-- The message that is replied to, if all of its seven tags are there.
abbrev pub reply : List (Str × Str) → Option Reply
reply tags = with_tag tags "reply-parent-msg-id" λ message_id.
    with_tag tags "reply-thread-parent-msg-id" λ thread_id.
      with_tag tags "reply-thread-parent-user-login" λ thread_login.
        with_tag tags "reply-parent-user-id" λ id. with_tag tags "reply-parent-user-login" λ login.
          with_tag tags "reply-parent-display-name" λ name.
            with_tag tags "reply-parent-msg-body" λ text. some (record {
              thread_parent_message_id = thread_id;
              thread_parent_user_login = thread_login;
              message_id = message_id;
              sender = record { id = id; login = login; name = name };
              text = text;
            })

-- The payment of a pinned message, if all of its five tags can be read.
abbrev pub pinned_chat : List (Str × Str) → Option PinnedChat
pinned_chat tags = bind? (with_tag tags "pinned-chat-paid-amount" parse_i64) λ amount.
    with_tag tags "pinned-chat-paid-currency" λ currency.
      bind? (with_tag tags "pinned-chat-paid-exponent" parse_i64) λ exponent.
        bind? (with_tag tags "pinned-chat-paid-level" from_str) λ level.
          with_tag tags "pinned-chat-paid-is-system-message" λ system. some (record {
            paid_amount = amount;
            paid_currency = currency;
            paid_exponent = exponent;
            paid_level = level;
            is_system_message = parse_bool system;
          })

module _ (m : IrcMessage) (p : Parts) (says : Says m p) where
  pub reply_of-reply : reply_of m ≡ done (reply p.tags)
  unfolding reply_of TagNames.as_str
  reply_of-reply =
      rw
        (
          tag-first_value m (whole p) says TagNames.reply_parent_msg_id,
          tag-first_value m (whole p) says TagNames.reply_thread_parent_msg_id,
          tag-first_value m (whole p) says TagNames.reply_thread_parent_user_login,
          tag-first_value m (whole p) says TagNames.reply_parent_user_id,
          tag-first_value m (whole p) says TagNames.reply_parent_user_login,
          tag-first_value m (whole p) says TagNames.reply_parent_display_name,
          tag-first_value m (whole p) says TagNames.reply_parent_msg_body,
        )
        (ground arith)

  pub pinned_chat_of-pinned_chat : pinned_chat_of m ≡ done (pinned_chat p.tags)
  unfolding pinned_chat_of TagNames.as_str
  pinned_chat_of-pinned_chat =
      rw
        (
          number_of-first_value m (whole p) says parse_i64 TagNames.pinned_chat_paid_amount,
          tag-first_value m (whole p) says TagNames.pinned_chat_paid_currency,
          number_of-first_value m (whole p) says parse_i64 TagNames.pinned_chat_paid_exponent,
          number_of-first_value m (whole p) says from_str TagNames.pinned_chat_paid_level,
          tag-first_value m (whole p) says TagNames.pinned_chat_paid_is_system_message,
        )
        (ground arith)
