-- ===== src/Msg/Line/Members.antt =====
-- msg/join.rs, msg/part.rs, msg/user_state.rs and msg/room_state.rs: the typed messages of the lines
-- about the members and the settings of a channel.
use tmi_rs.Prelude.{List, Option, some, bind?, map?, [], ◌∷◌, ◌≡◌, refl, ap, sym, ◌∙◌, done}
use tmi_rs.Prelude.Int.{ℤ}
use tmi_rs.Str.{Str, codes}
use tmi_rs.Str.Numbers.{parse_u64, parse_i64}
use tmi_rs.Irc.Command as Commands
use tmi_rs.Irc.Tag as TagNames
use tmi_rs.Irc.Message.{IrcMessage}
use tmi_rs.Irc.Message.Line.{Parts, Says, whole}
use tmi_rs.Irc.Message.Lookup.{first_value}
use tmi_rs.Msg.Badge.{Badge, unwrap_or}
use tmi_rs.Msg.Fields.{parse_bool, not_empty, split_comma}
use tmi_rs.Msg.Fields.Ends.{expect-some}
use tmi_rs.Msg.Line.{
  command-known, tag-first_value, nick-prefix, number_of-first_value, color_of-first_value,
  emote_sets_of-first_value,
}
use tmi_rs.Msg.Line.Values.{HasBadges, HasMode, badges_of-HasBadges, followers_only_of-HasMode}
use tmi_rs.Msg.Membership.{parse_join, parse_part}
use tmi_rs.Msg.RoomState
use tmi_rs.Msg.RoomState.{RoomState, FollowersOnly}
use tmi_rs.Msg.Typed.{join, part, user_state, room_state, typed, from_irc}
use tmi_rs.Msg.UserState.{UserState, parse_user_state}

module _ {Time : Type 0} (timestamp_millis : ℤ → Option Time) (p : Parts) where
  pub from_irc-join :
      (m : IrcMessage) (user : Str)
      → Says m p
      → p.command ≡ codes "JOIN"
      → p.prefix.nick ≡ some user
      → from_irc timestamp_millis m
        ≡ done (some (join (record { channel = b'#' ∷ p.channel; user = user })))
  unfolding from_irc typed parse_join Commands.as_str
  from_irc-join m user says command nick =
      let is_command = command-known m (whole p) says Commands.join tt (sym command) in
      rw
        (
          is_command,
          expect-some m Commands.join is_command,
          says.channel_lem,
          nick-prefix m (whole p) says ∙ ap done nick,
        )
        refl

  pub from_irc-part :
      (m : IrcMessage) (user : Str)
      → Says m p
      → p.command ≡ codes "PART"
      → p.prefix.nick ≡ some user
      → from_irc timestamp_millis m
        ≡ done (some (part (record { channel = b'#' ∷ p.channel; user = user })))
  unfolding from_irc typed parse_part Commands.as_str
  from_irc-part m user says command nick =
      let is_command = command-known m (whole p) says Commands.part tt (sym command) in
      rw
        (
          is_command,
          expect-some m Commands.part is_command,
          says.channel_lem,
          nick-prefix m (whole p) says ∙ ap done nick,
        )
        refl

  -- The state of the client's own user that the tags hold.
  abbrev pub own_state : Str → List Badge → UserState
  own_state name badges = record {
    channel = b'#' ∷ p.channel;
    user_name = name;
    badges = badges;
    emote_sets = unwrap_or [] (map? (first_value (codes "emote-sets") p.tags) split_comma);
    color = not_empty (first_value (codes "color") p.tags);
  }

  pub from_irc-own_state :
      (m : IrcMessage) (name : Str) (badges : List Badge)
      → Says m p
      → p.command ≡ codes "USERSTATE"
      → first_value (codes "display-name") p.tags ≡ some name
      → HasBadges p.tags badges
      → from_irc timestamp_millis m ≡ done (some (user_state (own_state name badges)))
  unfolding from_irc typed parse_user_state TagNames.as_str Commands.as_str
  from_irc-own_state m name badges says command named has =
      let is_command = command-known m (whole p) says Commands.user_state tt (sym command) in
      rw
        (
          is_command,
          expect-some m Commands.user_state is_command,
          says.channel_lem,
          tag-first_value m (whole p) says TagNames.display_name ∙ ap done named,
          badges_of-HasBadges m (whole p) says badges has,
          emote_sets_of-first_value m (whole p) says,
          color_of-first_value m (whole p) says,
        )
        refl

  -- The settings that the tags hold.
  abbrev pub settings : Str → Option FollowersOnly → RoomState
  settings channel_id mode = record {
    channel = b'#' ∷ p.channel;
    channel_id = channel_id;
    emote_only = map? (first_value (codes "emote-only") p.tags) parse_bool;
    followers_only = mode;
    r9k = map? (first_value (codes "r9k") p.tags) parse_bool;
    slow = bind? (first_value (codes "slow") p.tags) parse_u64;
    subs_only = map? (first_value (codes "subs-only") p.tags) parse_bool;
  }

  pub from_irc-settings :
      (m : IrcMessage) (channel_id : Str) (mode : Option FollowersOnly)
      → Says m p
      → p.command ≡ codes "ROOMSTATE"
      → first_value (codes "room-id") p.tags ≡ some channel_id
      → HasMode p.tags mode
      → from_irc timestamp_millis m ≡ done (some (room_state (settings channel_id mode)))
  unfolding from_irc typed RoomState.parse TagNames.as_str Commands.as_str
  from_irc-settings m channel_id mode says command room has =
      let is_command = command-known m (whole p) says Commands.room_state tt (sym command) in
      rw
        (
          is_command,
          expect-some m Commands.room_state is_command,
          says.channel_lem,
          tag-first_value m (whole p) says TagNames.room_id ∙ ap done room,
          tag-first_value m (whole p) says TagNames.emote_only,
          number_of-first_value m (whole p) says parse_i64 TagNames.followers_only,
          followers_only_of-HasMode p.tags mode has,
          tag-first_value m (whole p) says TagNames.r9_k,
          number_of-first_value m (whole p) says parse_u64 TagNames.slow,
          tag-first_value m (whole p) says TagNames.subs_only,
        )
        refl
