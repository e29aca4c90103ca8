-- ===== src/Msg/Line/Server.antt =====
-- msg/ping.rs, msg/pong.rs, msg/whisper.rs, msg/global_user_state.rs and msg/notice.rs: the typed
-- messages of the lines that name no channel.
use tmi_rs.Prelude.{
  List, Option, none, some, bind?, map?, IfSome, [], ◌∷◌, ◌++◌, ◌≡◌, refl, ap, sym, ◌∙◌, arith,
  append_assoc, ◌+◌, length, length-append, done,
}
use tmi_rs.Prelude.Int.{ℤ}
use tmi_rs.Str.{Str, codes, slice_from, StartsChar, Lacks, strip_prefix}
use tmi_rs.Str.Laws.{find-append, slice_from-append}
use tmi_rs.Str.Split.{split_once_at}
use tmi_rs.Irc.Command as Commands
use tmi_rs.Irc.Tag as TagNames
use tmi_rs.Irc.Message as Lines
use tmi_rs.Irc.Message.{IrcMessage, or_empty}
use tmi_rs.Irc.Message.Whole.{Whole, SaysWhole}
use tmi_rs.Irc.Message.Lookup.{first_value}
use tmi_rs.Msg.Badge.{Badge, unwrap_or}
use tmi_rs.Msg.Fields.{User, not_empty, split_comma}
use tmi_rs.Msg.Fields.Ends.{expect-some}
use tmi_rs.Msg.Line.{
  command-known, tag-first_value, nick-prefix, text_ref-colon, color_of-first_value,
  emotes_of-first_value, emote_sets_of-first_value,
}
use tmi_rs.Msg.Line.Values.{HasBadges, badges_of-HasBadges}
use tmi_rs.Msg.Notice
use tmi_rs.Msg.Ping.{parse_ping, parse_pong}
use tmi_rs.Msg.UserState.{GlobalUserState, parse_global}
use tmi_rs.Msg.Whisper
use tmi_rs.Msg.Whisper.{Whisper}
use tmi_rs.Msg.Typed.{ping, pong, whisper, notice, reconnect, global_user_state, typed, from_irc}

-- A text that begins with no space is cut at the first ` :`.
split_once_at-append :
    (recipient text : Str)
    → Lacks b' ' recipient
    → split_once_at (codes " :") (recipient ++ (codes " :" ++ text)) ≡ some (recipient, text)
unfolding split_once_at strip_prefix
split_once_at-append [] text lacks = refl
split_once_at-append (c ∷ recipient) text lacks =
    ground (arith, split_once_at-append recipient text lacks.1)

-- A nonce behind its colon.
abbrev pub colon : Option Str → Option Str
colon nonce = map? nonce (λ s. b':' ∷ s)

-- What stands behind the first colon of the params.
text_ref-nonce :
    (m : IrcMessage) (w : Whole)
    → SaysWhole m w
    → (nonce : Option Str) → IfSome StartsChar nonce
    → w.params ≡ colon nonce
    → Lines.text_ref m ≡ done nonce
unfolding Lines.text_ref
text_ref-nonce m w says none starts e = rw (says.params_lem, e) refl
text_ref-nonce m w says (some s) starts e = text_ref-colon m w says s starts e

Lacks-space : (target : Str) → Lacks b':' target → Lacks b':' (target ++ b' ' ∷ [])
Lacks-space [] lacks = omega arith
Lacks-space (c ∷ target) (other, lacks) = (other, Lacks-space target lacks)

-- A target, and a text behind ` :`.
abbrev pub addressed : Str → Str → Str
addressed target text = target ++ (codes " :" ++ text)

text_ref-addressed :
    (m : IrcMessage) (w : Whole)
    → SaysWhole m w
    → (target text : Str) → Lacks b':' target
    → StartsChar text
    → w.params ≡ some (addressed target text)
    → Lines.text_ref m ≡ done (some text)
unfolding Lines.text_ref
text_ref-addressed m w says target text lacks starts e =
    let before = target ++ b' ' ∷ [] in
    let cut : target ++ (b' ' ∷ (b':' ∷ text)) ≡ before ++ b':' ∷ text = simp append_assoc in
    let cut' : before ++ b':' ∷ text ≡ (before ++ b':' ∷ []) ++ text = simp append_assoc in
    let at : length before + 1 ≡ length (before ++ b':' ∷ []) =
      omega (arith, length-append before (b':' ∷ [])) in
    let behind : slice_from (before ++ b':' ∷ text) (length before + 1) ≡ done text =
      rw (at, cut') (slice_from-append (before ++ b':' ∷ []) text starts) in
    rw (says.params_lem, e, cut, find-append before text b':' (Lacks-space target lacks), behind)
      refl

module _ {Time : Type 0} (timestamp_millis : ℤ → Option Time) (w : Whole) where
  -- The message that a user sends to another.
  abbrev pub whispered : Str → User → Str → List Badge → Whisper
  whispered recipient sender text badges = record {
    recipient = recipient;
    sender = sender;
    text = text;
    badges = badges;
    emotes = unwrap_or [] (first_value (codes "emotes") (or_empty w.tags));
    color = not_empty (first_value (codes "color") (or_empty w.tags));
  }

  -- The state of the client's own user in all channels.
  abbrev pub global_state : Str → Str → List Badge → GlobalUserState
  global_state id name badges = record {
    id = id;
    name = name;
    badges = badges;
    emote_sets =
        unwrap_or [] (map? (first_value (codes "emote-sets") (or_empty w.tags)) split_comma);
    color = not_empty (first_value (codes "color") (or_empty w.tags));
  }

  module _ (m : IrcMessage) (says : SaysWhole m w) where
    pub from_irc-ping :
        (nonce : Option Str)
        → IfSome StartsChar nonce
        → w.command ≡ codes "PING"
        → w.params ≡ colon nonce
        → from_irc timestamp_millis m ≡ done (some (ping (record { nonce = nonce })))
    unfolding from_irc typed parse_ping Commands.as_str
    from_irc-ping nonce starts command params =
        let is_command = command-known m w says Commands.ping tt (sym command) in
        rw
          (
            is_command,
            expect-some m Commands.ping is_command,
            text_ref-nonce m w says nonce starts params,
          )
          refl

    pub from_irc-pong :
        (nonce : Option Str)
        → IfSome StartsChar nonce
        → w.command ≡ codes "PONG"
        → w.params ≡ colon nonce
        → from_irc timestamp_millis m ≡ done (some (pong (record { nonce = nonce })))
    unfolding from_irc typed parse_pong Commands.as_str
    from_irc-pong nonce starts command params =
        let is_command = command-known m w says Commands.pong tt (sym command) in
        rw
          (
            is_command,
            expect-some m Commands.pong is_command,
            text_ref-nonce m w says nonce starts params,
          )
          refl

    pub from_irc-reconnect :
        w.command ≡ codes "RECONNECT" → from_irc timestamp_millis m ≡ done (some reconnect)
    unfolding from_irc typed Commands.as_str
    from_irc-reconnect command =
        rw (command-known m w says Commands.reconnect tt (sym command)) refl

    pub from_irc-addressed :
        (target text : Str)
        → Lacks b':' target
        → StartsChar text
        → w.command ≡ codes "NOTICE"
        → w.channel ≡ none
        → w.params ≡ some (addressed target text)
        → from_irc timestamp_millis m
          ≡ done (
              some (
                notice (record {
                  channel = none;
                  text = text;
                  id = first_value (codes "msg-id") (or_empty w.tags);
                })))
    unfolding from_irc typed Notice.parse TagNames.as_str Commands.as_str
    from_irc-addressed target text lacks starts command no_channel params =
        let is_command = command-known m w says Commands.notice tt (sym command) in
        rw
          (
            is_command,
            expect-some m Commands.notice is_command,
            says.channel_lem,
            no_channel,
            text_ref-addressed m w says target text lacks starts params,
            tag-first_value m w says TagNames.msg_id,
          )
          refl

    pub from_irc-whispered :
        (recipient : Str) (sender : User) (text : Str) (badges : List Badge)
        → Lacks b' ' recipient
        → w.command ≡ codes "WHISPER"
        → w.params ≡ some (addressed recipient text)
        → bind? w.prefix (λ p. p.nick) ≡ some sender.login
        → first_value (codes "user-id") (or_empty w.tags) ≡ some sender.id
        → first_value (codes "display-name") (or_empty w.tags) ≡ some sender.name
        → HasBadges (or_empty w.tags) badges
        → from_irc timestamp_millis m
          ≡ done (some (whisper (whispered recipient sender text badges)))
    unfolding from_irc typed Whisper.parse TagNames.as_str Commands.as_str
    from_irc-whispered recipient sender text badges lacks command params login id name has =
        let is_command = command-known m w says Commands.whisper tt (sym command) in
        rw
          (
            is_command,
            expect-some m Commands.whisper is_command,
            says.params_lem ∙ ap done params,
            split_once_at-append recipient text lacks,
            tag-first_value m w says TagNames.user_id ∙ ap done id,
            nick-prefix m w says ∙ ap done login,
            tag-first_value m w says TagNames.display_name ∙ ap done name,
            color_of-first_value m w says,
            badges_of-HasBadges m w says badges has,
            emotes_of-first_value m w says,
          )
          refl

    pub from_irc-global_state :
        (id name : Str) (badges : List Badge)
        → w.command ≡ codes "GLOBALUSERSTATE"
        → first_value (codes "user-id") (or_empty w.tags) ≡ some id
        → first_value (codes "display-name") (or_empty w.tags) ≡ some name
        → HasBadges (or_empty w.tags) badges
        → from_irc timestamp_millis m
          ≡ done (some (global_user_state (global_state id name badges)))
    unfolding from_irc typed parse_global TagNames.as_str Commands.as_str
    from_irc-global_state id name badges command is_id is_name has =
        let is_command = command-known m w says Commands.global_user_state tt (sym command) in
        rw
          (
            is_command,
            expect-some m Commands.global_user_state is_command,
            tag-first_value m w says TagNames.user_id ∙ ap done is_id,
            tag-first_value m w says TagNames.display_name ∙ ap done is_name,
            badges_of-HasBadges m w says badges has,
            emote_sets_of-first_value m w says,
            color_of-first_value m w says,
          )
          refl
