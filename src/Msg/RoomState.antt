-- ===== src/Msg/RoomState.antt =====
-- msg/room_state.rs: a change of a channel's settings. A duration is its seconds.
pub mod Followers
use tmi_rs.Prelude.{ℕ, zero, suc, ◌*◌, ◌%◌, ◌^◌, Bool, Option, none, some, map?}
use tmi_rs.Prelude.Int.{ℤ, pos, negsuc}
use tmi_rs.Str.{Str}
use tmi_rs.Str.Numbers.{parse_u64, parse_i64}
use tmi_rs.Irc.Command as Commands
use tmi_rs.Irc.Tag as TagNames
use tmi_rs.Irc.Message
use tmi_rs.Irc.Message.{IrcMessage}
use tmi_rs.Msg.Attempt.{Attempt, ◌>>=◌, ◌>>◌, ret, optional}
use tmi_rs.Msg.Fields.{expect, parse_bool, number_of}

pub data FollowersOnly : Type 0 where
  disabled : FollowersOnly
  enabled : Option ℕ → FollowersOnly

pub record RoomState : Type 0 where
  pub channel : Str
  pub channel_id : Str
  pub emote_only : Option Bool
  pub followers_only : Option FollowersOnly
  pub r9k : Option Bool
  pub slow : Option ℕ
  pub subs_only : Option Bool

-- The match on the minutes. The product of two `i64` wraps around.
unfoldable pub followers_only_of : ℤ → FollowersOnly
followers_only_of (pos (suc n)) = enabled (some ((suc n * 60) % 2 ^ 64))
followers_only_of (pos zero) = enabled none
followers_only_of (negsuc n) = disabled

unfoldable pub parse : IrcMessage → Attempt RoomState
unfolding followers_only_of
parse m = do
  expect m Commands.room_state
  channel ← Message.channel m
  channel_id ← Message.tag m TagNames.room_id
  emote_only ← optional (Message.tag m TagNames.emote_only)
  minutes ← optional (number_of parse_i64 m TagNames.followers_only)
  r9k ← optional (Message.tag m TagNames.r9_k)
  slow ← optional (number_of parse_u64 m TagNames.slow)
  subs_only ← optional (Message.tag m TagNames.subs_only)
  ret (record {
    channel = channel;
    channel_id = channel_id;
    emote_only = map? emote_only parse_bool;
    followers_only = map? minutes followers_only_of;
    r9k = map? r9k parse_bool;
    slow = slow;
    subs_only = map? subs_only parse_bool;
  })
