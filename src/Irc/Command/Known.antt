-- ===== src/Irc/Command/Known.antt =====
-- irc/command.rs: the commands that have a name of their own.
use tmi_rs.Prelude.{some, ◌≡◌, refl, sym, ap, ◌∙◌, done, done_inj, some_inj}
use tmi_rs.Str.{Str, lookup}
use tmi_rs.Irc.Span.{Span}
use tmi_rs.Irc.Command.{Command, RawCommand, get, as_str, classify}

abbrev pub IsKnown : Command → Type 0
IsKnown (Command.other s) = ⊥
IsKnown _ = Unit

-- The variant that the parser has for it.
abbrev pub raw_of : Span → Command → RawCommand
raw_of span Command.ping = RawCommand.ping
raw_of span Command.pong = RawCommand.pong
raw_of span Command.join = RawCommand.join
raw_of span Command.part = RawCommand.part
raw_of span Command.privmsg = RawCommand.privmsg
raw_of span Command.whisper = RawCommand.whisper
raw_of span Command.clear_chat = RawCommand.clearchat
raw_of span Command.clear_msg = RawCommand.clearmsg
raw_of span Command.global_user_state = RawCommand.global_user_state
raw_of span Command.notice = RawCommand.notice
raw_of span Command.reconnect = RawCommand.reconnect
raw_of span Command.room_state = RawCommand.room_state
raw_of span Command.user_notice = RawCommand.user_notice
raw_of span Command.user_state = RawCommand.user_state
raw_of span Command.capability = RawCommand.capability
raw_of span Command.rpl_welcome = RawCommand.rpl_welcome
raw_of span Command.rpl_your_host = RawCommand.rpl_your_host
raw_of span Command.rpl_created = RawCommand.rpl_created
raw_of span Command.rpl_my_info = RawCommand.rpl_my_info
raw_of span Command.rpl_names = RawCommand.rpl_nam_reply
raw_of span Command.rpl_end_of_names = RawCommand.rpl_end_of_names
raw_of span Command.rpl_motd = RawCommand.rpl_motd
raw_of span Command.rpl_motd_start = RawCommand.rpl_motd_start
raw_of span Command.rpl_end_of_motd = RawCommand.rpl_end_of_motd
raw_of span (Command.other s) = RawCommand.other span

classify-as_str :
    (c : Command) (span : Span) → IsKnown c → classify (as_str c) span ≡ some (raw_of span c)
unfolding classify as_str lookup
classify-as_str Command.ping span k = refl
classify-as_str (Command.other s) span k = elim k [ ]
classify-as_str _ span k = refl

get-raw_of : (c : Command) (span : Span) (src : Str) → IsKnown c → get (raw_of span c) src ≡ done c
unfolding get
get-raw_of Command.ping span src k = refl
get-raw_of (Command.other s) span src k = elim k [ ]
get-raw_of _ span src k = refl

-- A word that is the name of a known command is read as that command.
pub known_of_word :
    (src w : Str) (span : Span) (raw : RawCommand) (c d : Command)
    → classify w span ≡ some raw
    → get raw src ≡ done c
    → IsKnown d
    → as_str d ≡ w
    → c ≡ d
known_of_word src w span raw c d hit got k e =
    let same : raw ≡ raw_of span d =
      some_inj (sym hit ∙ ap (λ w. classify w span) (sym e) ∙ classify-as_str d span k) in
    done_inj (sym got ∙ ap (λ r. get r src) same ∙ get-raw_of d span src k)
