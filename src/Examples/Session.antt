-- ===== src/Examples/Session.antt =====
-- An instance of the theorem on the lines that a server sends: a ping, and then a whisper.
use tmi_rs.Prelude.{ℕ, ◌+◌, ◌==◌, if◌then◌else◌, List, [], ◌∷◌, Option, none, some}
use tmi_rs.Prelude.Int.{ℤ}
use tmi_rs.Str.{Str, codes}
use tmi_rs.Irc.Prefix as Prefixes
use tmi_rs.Irc.Prefix.{Prefix}
use tmi_rs.Irc.Message.Whole.{Whole, line}
use tmi_rs.Msg.Fields.{User}
use tmi_rs.Msg.Line.Server.{whispered}
use tmi_rs.Msg.Typed.{Message}
use tmi_rs.Client.Errors.{value}
use tmi_rs.Client.Handshake.{Connection}

abbrev millis : ℤ → Option ℤ
millis z = some z

abbrev ping_line : Whole
ping_line = record {
  tags = none;
  prefix = none;
  command = codes "PING";
  channel = none;
  params = some (codes ":tmi");
}

abbrev whisper_line : Whole
whisper_line = record {
  tags = some ((codes "user-id", codes "3") ∷ (codes "display-name", codes "D") ∷ []);
  prefix = some (record { nick = some (codes "d"); user = some (codes "d"); host = codes "d.tv" });
  command = codes "WHISPER";
  channel = none;
  params = some (codes "me :hi: you");
}

abbrev sender : User
sender = record { id = codes "3"; login = codes "d"; name = codes "D" }

-- A connection that gives the ping, and then the whisper.
abbrev serving : Connection ℕ ℕ ℕ
serving = record {
  next_line = λ r. (r + 1, value (some (if r == 0 then line ping_line else line whisper_line)));
  write_all = λ w s. (w, value tt);
  flush = λ w. (w, value tt);
}

abbrev sent : List (Whole × Message ℤ)
sent =
    (ping_line, Message.ping (record { nonce = some (codes "tmi") }))
    ∷ (
      whisper_line,
      Message.whisper (whispered millis whisper_line (codes "me") sender (codes "hi: you") []),
    )
    ∷ []
