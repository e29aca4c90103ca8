-- ===== src/Msg/UserState.antt =====
-- msg/user_state.rs and msg/global_user_state.rs: the state of the client's own user.
use tmi_rs.Prelude.{List, Option}
use tmi_rs.Str.{Str}
use tmi_rs.Irc.Command as Commands
use tmi_rs.Irc.Tag as TagNames
use tmi_rs.Irc.Message
use tmi_rs.Irc.Message.{IrcMessage}
use tmi_rs.Msg.Attempt.{Attempt, ◌>>=◌, ◌>>◌, ret}
use tmi_rs.Msg.Badge.{Badge}
use tmi_rs.Msg.Fields.{expect, badges_of, emote_sets_of, color_of}

pub record UserState : Type 0 where
  pub channel : Str
  pub user_name : Str
  pub badges : List Badge
  pub emote_sets : List Str
  pub color : Option Str

pub record GlobalUserState : Type 0 where
  pub id : Str
  pub name : Str
  pub badges : List Badge
  pub emote_sets : List Str
  pub color : Option Str

-- `UserState::parse`
unfoldable pub parse_user_state : IrcMessage → Attempt UserState
parse_user_state m = do
  expect m Commands.user_state
  channel ← Message.channel m
  user_name ← Message.tag m TagNames.display_name
  badges ← badges_of m
  emote_sets ← emote_sets_of m
  color ← color_of m
  ret (record {
    channel = channel;
    user_name = user_name;
    badges = badges;
    emote_sets = emote_sets;
    color = color;
  })

-- `GlobalUserState::parse`
unfoldable pub parse_global : IrcMessage → Attempt GlobalUserState
parse_global m = do
  expect m Commands.global_user_state
  id ← Message.tag m TagNames.user_id
  name ← Message.tag m TagNames.display_name
  badges ← badges_of m
  emote_sets ← emote_sets_of m
  color ← color_of m
  ret (record { id = id; name = name; badges = badges; emote_sets = emote_sets; color = color })
