-- ===== src/Examples/Clients.antt =====
-- Instances of the theorems on the client and on unescaping.
use tmi_rs.Prelude.{
  List, ◌+◌, ◌==◌, if◌then◌else◌, ℕ, [], ◌∷◌, ◌++◌, ◌≡◌, refl, arith, none, some, Outcome, done,
  Option, true,
}
use tmi_rs.Str.{
  Str, codes, starts_with, slice, slice_from, is_char_boundary, strip_prefix, find, eq, lookup,
}
use tmi_rs.Irc.Span as Spans
use tmi_rs.Irc.Prefix as Prefixes
use tmi_rs.Irc.Channel
use tmi_rs.Irc.Command as Commands
use tmi_rs.Irc.Escape.{raised_comma, unescape, maybe_unescape}
use tmi_rs.Irc.Escape.Agreement.{NoCommaBefore, maybe_unescape-unescape}
use tmi_rs.Irc.Command.{Command}
use tmi_rs.Irc.Tags.Scalar as Scalars
use tmi_rs.Irc.Message
use tmi_rs.Irc.Message.{IrcMessage}
use tmi_rs.Client.Write.{Call, privmsg, join_all, body, crlf, send, io_reply}
use tmi_rs.Client.Write as Writes
use tmi_rs.Client.Write.Sent.{send-write_all}
use tmi_rs.Client.Errors.{
  ConnectError, Connected, ok, failed, open_stream, value, error, should_retry,
}
use tmi_rs.Client.Handshake.{Client, Connection, login_text, recv, handshake, after_write}
use tmi_rs.Client.Handshake.Scratch.{handshake_resent}
use tmi_rs.Client.Connect.{
  build, connect, with_credentials, builder, default_config, anon, loaded, opened,
}
use tmi_rs.Client.Reconnect.{Dialer, attempts, default_backoff, reconnect}
use tmi_rs.Client.Reconnect.Attempts.{Ends}
use tmi_rs.Client.Reconnect.Delays.{refusing, delays, Fits, reconnect-delays}

sample-NoCommaBefore : NoCommaBefore (b'a' ∷ b'\\' ∷ b's' ∷ raised_comma ∷ [])
sample-NoCommaBefore = ((omega arith), λ _. ((omega arith), λ h. absurd (h refl)))

maybe_unescape-unescape_example :
    maybe_unescape (b'a' ∷ b'\\' ∷ b's' ∷ raised_comma ∷ [])
    ≡ unescape (b'a' ∷ b'\\' ∷ b's' ∷ raised_comma ∷ [])
maybe_unescape-unescape_example =
    maybe_unescape-unescape (b'a' ∷ b'\\' ∷ b's' ∷ raised_comma ∷ []) sample-NoCommaBefore

-- A stream that keeps all that is written.
keep_all : Str → Str → Str × Option ℕ
keep_all w s = (w ++ s, none)

send-write_all_example :
    send keep_all (record { writer = []; scratch = [] }) (join_all (codes "#a" ∷ codes "b" ∷ []))
    ≡ (
      record {
        writer = (keep_all [] ([] ++ (body (join_all (codes "#a" ∷ codes "b" ∷ [])) ++ crlf))).0;
        scratch = [];
      },
      io_reply keep_all
          (keep_all [] ([] ++ (body (join_all (codes "#a" ∷ codes "b" ∷ [])) ++ crlf))).1,
    )
send-write_all_example =
    send-write_all keep_all (record { writer = []; scratch = [] })
      (join_all (codes "#a" ∷ codes "b" ∷ []))

join_all_text : body (join_all (codes "#a" ∷ codes "b" ∷ [])) ≡ codes "JOIN #a,#b"
unfolding body Writes.channel_text starts_with
join_all_text = refl

-- A connection whose writes all fail, and which gives no line.
broken : Connection ℕ ℕ ℕ
broken = record {
  next_line = λ r. (r, value none);
  write_all = λ w s. (w, error 32);
  flush = λ w. (w, value tt);
}

abbrev pub anonymous : Client ℕ ℕ
anonymous = record {
  reader = 0;
  writer = 0;
  scratch = [];
  credentials = record { login = codes "justinfan12345"; token = none };
}

handshake_resent_example :
    (unsent : Client ℕ ℕ) × (◌≡◌ {A = Outcome (Client ℕ ℕ × Connected ℕ ℕ ℕ)}
      (handshake Scalars.parse broken anonymous)
      (done (unsent, failed (ConnectError.io 32))))
    × (should_retry {E = ℕ} {D = ℕ} {T = ℕ} (ConnectError.io 32) ≡ true)
    × (◌≡◌ {A = Outcome (Client ℕ ℕ × Connected ℕ ℕ ℕ)}
        (handshake Scalars.parse broken (record unsent { reader = 1; writer = 1 }))
        (let text = login_text anonymous.credentials ++ login_text anonymous.credentials in
          let (writer', written) = broken.write_all 1 text in
          after_write Scalars.parse broken
            (record anonymous { reader = 1; writer = writer'; scratch = text })
            written))
unfolding broken
handshake_resent_example = handshake_resent Scalars.parse broken anonymous 1 1 32 refl refl

-- A connection that takes what is written and closes.
closing : Connection ℕ ℕ ℕ
closing = record {
  next_line = λ r. (r, value none);
  write_all = λ w s. (w, value tt);
  flush = λ w. (w, value tt);
}

abbrev shake : Client ℕ ℕ → Outcome (Client ℕ ℕ × Connected ℕ ℕ ℕ)
shake = handshake Scalars.parse closing

shake-Ends : (client : Client ℕ ℕ) → Ends (shake client)
unfolding closing handshake recv
shake-Ends client e = cc

pub default-Fits : Fits default_backoff
default-Fits = record { initial_fits = omega arith; max_fits = omega arith }

reconnect-delays_example :
    reconnect (refusing 111) shake 9 default_backoff [] anonymous
    ≡ done ([] ++ delays default_backoff 0 8, anonymous, failed (open_stream 111))
reconnect-delays_example =
    reconnect-delays shake 7 default_backoff [] anonymous 111 refl default-Fits

-- The default waits, in seconds: 1, 3, 9, and then 12.
default_delays :
    delays default_backoff 0 5
    ≡ 1000000000 ∷ 3000000000 ∷ 9000000000 ∷ 12000000000 ∷ 12000000000 ∷ []
default_delays = refl

-- A connection that accepts the login.
unfoldable pub accepting : Connection ℕ ℕ ℕ
accepting = record {
  next_line =
      λ r. (r + 1, value (some (if r == 0 then codes ":t CAP * ACK :x" else codes ":t 001 a :hi")));
  write_all = λ w s. (w, value tt);
  flush = λ w. (w, value tt);
}

pub accepting_login :
    ◌≡◌ {A = Outcome (Client ℕ ℕ × Connected ℕ ℕ ℕ)}
      (handshake Scalars.parse accepting anonymous)
      (done (record anonymous { reader = 2 }, ok))
unfolding accepting handshake recv Message.parse Message.command Message.params Scalars.parse slice
    slice_from is_char_boundary strip_prefix starts_with find eq Spans.index Spans.from
    Prefixes.parse Prefixes.index_option Commands.parse Commands.classify lookup Commands.get
    Channel.parse Channel.parse_params
accepting_login = refl

-- A network whose first connection accepts the login.
unfoldable pub answering : Dialer ℕ ℕ ℕ (List ℕ)
answering = record { sleep = λ log delay. log ++ delay ∷ []; dial = λ log. (log, value (0, 0)) }

abbrev pub login : Client ℕ ℕ → Outcome (Client ℕ ℕ × Connected ℕ ℕ ℕ)
login = handshake Scalars.parse accepting

pub second_login :
    reconnect answering login 9 default_backoff [] anonymous
    ≡ done (1000000000 ∷ [], record anonymous { reader = 2 }, ok)
unfolding answering reconnect attempts accepting handshake recv Message.parse Message.command
    Message.params Scalars.parse slice slice_from is_char_boundary strip_prefix starts_with find eq
    Spans.index Spans.from Prefixes.parse Prefixes.index_option Commands.parse Commands.classify
    lookup Commands.get Channel.parse Channel.parse_params
second_login = refl

-- The first connection of a builder.
first_login :
    build answering login loaded
      (with_credentials anonymous.credentials (builder (codes "12345")))
      []
    ≡ done ([], opened (record anonymous { reader = 2 }))
unfolding answering build connect with_credentials builder default_config anon accepting handshake
    recv Message.parse Message.command Message.params Scalars.parse slice slice_from
    is_char_boundary strip_prefix starts_with find eq Spans.index Spans.from Prefixes.parse
    Prefixes.index_option Commands.parse Commands.classify lookup Commands.get Channel.parse
    Channel.parse_params
first_login = refl
