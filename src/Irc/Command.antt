-- ===== src/Irc/Command.antt =====
-- irc/command.rs: the commands, their names, and the parser of `COMMAND <rest>`.
pub mod Known
pub mod Names
pub mod Last
pub mod Bounds
pub mod Total
pub mod Equality
use tmi_rs.Prelude.{
  ℕ, ◌+◌, Bool, ◌&&◌, ◌==◌, [], ◌∷◌, List, Option, none, some, if◌then◌else◌, length, Outcome, done,
  ◌>>=◌,
}
use tmi_rs.Str
use tmi_rs.Str.{Str, codes, find, lookup, slice_from, slice}
use tmi_rs.Irc.Span.{Span, index}
use tmi_rs.Irc.Span

pub data RawCommand : Type 0 where
  ping pong join part privmsg whisper : RawCommand
  clearchat clearmsg global_user_state notice reconnect room_state : RawCommand
  user_notice user_state capability rpl_welcome rpl_your_host rpl_created : RawCommand
  rpl_my_info rpl_nam_reply rpl_end_of_names rpl_motd rpl_motd_start rpl_end_of_motd : RawCommand
  other : Span → RawCommand

pub data Command : Type 0 where
  ping pong join part privmsg whisper : Command
  clear_chat clear_msg global_user_state notice reconnect room_state : Command
  user_notice user_state capability rpl_welcome rpl_your_host rpl_created : Command
  rpl_my_info rpl_names rpl_end_of_names rpl_motd rpl_motd_start rpl_end_of_motd : Command
  other : Str → Command

-- `RawCommand::get`
unfoldable pub get : RawCommand → Str → Outcome Command
get RawCommand.ping src = done Command.ping
get RawCommand.pong src = done Command.pong
get RawCommand.join src = done Command.join
get RawCommand.part src = done Command.part
get RawCommand.privmsg src = done Command.privmsg
get RawCommand.whisper src = done Command.whisper
get RawCommand.clearchat src = done Command.clear_chat
get RawCommand.clearmsg src = done Command.clear_msg
get RawCommand.global_user_state src = done Command.global_user_state
get RawCommand.notice src = done Command.notice
get RawCommand.reconnect src = done Command.reconnect
get RawCommand.room_state src = done Command.room_state
get RawCommand.user_notice src = done Command.user_notice
get RawCommand.user_state src = done Command.user_state
get RawCommand.capability src = done Command.capability
get RawCommand.rpl_welcome src = done Command.rpl_welcome
get RawCommand.rpl_your_host src = done Command.rpl_your_host
get RawCommand.rpl_created src = done Command.rpl_created
get RawCommand.rpl_my_info src = done Command.rpl_my_info
get RawCommand.rpl_nam_reply src = done Command.rpl_names
get RawCommand.rpl_end_of_names src = done Command.rpl_end_of_names
get RawCommand.rpl_motd src = done Command.rpl_motd
get RawCommand.rpl_motd_start src = done Command.rpl_motd_start
get RawCommand.rpl_end_of_motd src = done Command.rpl_end_of_motd
get (RawCommand.other span) src = do s ← index src span; done (Command.other s)

-- `Command::as_str`
unfoldable pub as_str : Command → Str
as_str Command.ping = codes "PING"
as_str Command.pong = codes "PONG"
as_str Command.join = codes "JOIN"
as_str Command.part = codes "PART"
as_str Command.privmsg = codes "PRIVMSG"
as_str Command.whisper = codes "WHISPER"
as_str Command.clear_chat = codes "CLEARCHAT"
as_str Command.clear_msg = codes "CLEARMSG"
as_str Command.global_user_state = codes "GLOBALUSERSTATE"
as_str Command.notice = codes "NOTICE"
as_str Command.reconnect = codes "RECONNECT"
as_str Command.room_state = codes "ROOMSTATE"
as_str Command.user_notice = codes "USERNOTICE"
as_str Command.user_state = codes "USERSTATE"
as_str Command.capability = codes "CAP"
as_str Command.rpl_welcome = codes "001"
as_str Command.rpl_your_host = codes "002"
as_str Command.rpl_created = codes "003"
as_str Command.rpl_my_info = codes "004"
as_str Command.rpl_names = codes "353"
as_str Command.rpl_end_of_names = codes "366"
as_str Command.rpl_motd = codes "372"
as_str Command.rpl_motd_start = codes "375"
as_str Command.rpl_end_of_motd = codes "376"
as_str (Command.other cmd) = cmd

-- The variant of a command, and what `Other` holds.
unfoldable pub variant : Command → ℕ
variant Command.ping = 0
variant Command.pong = 1
variant Command.join = 2
variant Command.part = 3
variant Command.privmsg = 4
variant Command.whisper = 5
variant Command.clear_chat = 6
variant Command.clear_msg = 7
variant Command.global_user_state = 8
variant Command.notice = 9
variant Command.reconnect = 10
variant Command.room_state = 11
variant Command.user_notice = 12
variant Command.user_state = 13
variant Command.capability = 14
variant Command.rpl_welcome = 15
variant Command.rpl_your_host = 16
variant Command.rpl_created = 17
variant Command.rpl_my_info = 18
variant Command.rpl_names = 19
variant Command.rpl_end_of_names = 20
variant Command.rpl_motd = 21
variant Command.rpl_motd_start = 22
variant Command.rpl_end_of_motd = 23
variant (Command.other cmd) = 24

unfoldable pub payload : Command → Str
payload (Command.other cmd) = cmd
payload _ = []

-- The derived `PartialEq`.
unfoldable pub eq : Command → Command → Bool
unfolding variant payload
eq a b = variant a == variant b && Str.eq (payload a) (payload b)

-- The arms of the match on the command's text.
abbrev pub arms : List (Str × RawCommand)
arms =
    (codes "PING", RawCommand.ping)
    ∷ (codes "PONG", RawCommand.pong)
    ∷ (codes "JOIN", RawCommand.join)
    ∷ (codes "PART", RawCommand.part)
    ∷ (codes "PRIVMSG", RawCommand.privmsg)
    ∷ (codes "WHISPER", RawCommand.whisper)
    ∷ (codes "CLEARCHAT", RawCommand.clearchat)
    ∷ (codes "CLEARMSG", RawCommand.clearmsg)
    ∷ (codes "GLOBALUSERSTATE", RawCommand.global_user_state)
    ∷ (codes "NOTICE", RawCommand.notice)
    ∷ (codes "RECONNECT", RawCommand.reconnect)
    ∷ (codes "ROOMSTATE", RawCommand.room_state)
    ∷ (codes "USERNOTICE", RawCommand.user_notice)
    ∷ (codes "USERSTATE", RawCommand.user_state)
    ∷ (codes "CAP", RawCommand.capability)
    ∷ (codes "001", RawCommand.rpl_welcome)
    ∷ (codes "002", RawCommand.rpl_your_host)
    ∷ (codes "003", RawCommand.rpl_created)
    ∷ (codes "004", RawCommand.rpl_my_info)
    ∷ (codes "353", RawCommand.rpl_nam_reply)
    ∷ (codes "366", RawCommand.rpl_end_of_names)
    ∷ (codes "372", RawCommand.rpl_motd)
    ∷ (codes "375", RawCommand.rpl_motd_start)
    ∷ (codes "376", RawCommand.rpl_end_of_motd)
    ∷ []

-- The last two arms.
pub fallback : Str → Span → Option RawCommand
fallback [] span = none
fallback (c ∷ cs) span = some (RawCommand.other span)

-- The match: `None` if the text is unknown and empty.
pub match_arm : Option RawCommand → Str → Span → Option RawCommand
unfolding fallback
match_arm (some cmd) s span = some cmd
match_arm none s span = fallback s span

unfoldable pub classify : Str → Span → Option RawCommand
unfolding match_arm
classify s span = match_arm (lookup s arms) s span

-- The end of the command, and where the next part of the message begins.
pub command_end : Str → ℕ → Option ℕ → ℕ × ℕ
command_end src pos (some e) = (pos + e, pos + e + 1)
command_end src pos none = (length src, length src)

-- `*pos` moves on only when a command is returned.
pub advance : Option RawCommand → ℕ → ℕ → Option RawCommand × ℕ
advance (some cmd) pos next = (some cmd, next)
advance none pos next = (none, pos)

unfoldable pub parse : Str → ℕ → Outcome (Option RawCommand × ℕ)
unfolding command_end advance
parse src pos = do
  rest ← slice_from src pos
  let end = (command_end src pos (find rest b' ')).0
  let next = (command_end src pos (find rest b' ')).1
  word ← slice src pos end
  done (advance (classify word (Span.from pos end)) pos next)
