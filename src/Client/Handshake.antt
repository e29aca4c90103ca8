-- ===== src/Client/Handshake.antt =====
-- client.rs and client/read.rs: `Client::recv` and `Client::handshake`. The connection is tokio's:
-- `R` and `W` stand for the two halves of a stream, with the calls that the client makes of them.
pub mod Scratch
pub mod Accepted
pub mod Returns
pub mod Complete
use tmi_rs.Prelude.{
  ◌||◌, Bool, true, false, List, [], ◌∷◌, ◌++◌, Option, none, some, if◌then◌else◌, Outcome, done,
  ◌>>=◌,
}
use tmi_rs.Str.{Str, codes, starts_with}
use tmi_rs.Irc.Command as Commands
use tmi_rs.Irc.Command.{Command}
use tmi_rs.Irc.Message
use tmi_rs.Irc.Message.{IrcMessage, TagParser}
use tmi_rs.Client.Write.{crlf}
use tmi_rs.Client.Errors.{
  RecvError, ConnectError, Awaited, value, error, elapsed, Connected, ok, failed, timeout, auth,
  read, welcome, notice,
}

pub record Credentials : Type 0 where
  pub login : Str
  pub token : Option Str

-- The fields of `Client` that connecting reads and writes.
pub record Client (R W : Type 0) : Type 0 where
  pub reader : R
  pub writer : W
  pub scratch : Str
  pub credentials : Credentials

-- The password of an anonymous login, if there is no token.
abbrev pub token_or_default : Option Str → Str
token_or_default none = codes "just_a_lil_guy"
token_or_default (some token) = token

-- What `handshake` adds to the scratch buffer.
unfoldable pub login_text : Credentials → Str
login_text c =
    let token = token_or_default c.token in
    let oauth = if starts_with (codes "oauth:") token then [] else codes "oauth:" in
    codes "CAP REQ :twitch.tv/commands twitch.tv/tags twitch.tv/membership"
    ++ (crlf
        ++ (codes "PASS " ++ (oauth ++ (token ++ (crlf ++ (codes "NICK " ++ (c.login ++ crlf)))))))

-- `str::contains`
unfoldable pub contains : Str → Str → Bool
contains part [] = starts_with part []
contains part (c ∷ s) = starts_with part (c ∷ s) || contains part s

abbrev pub is_some_and : (Str → Bool) → Option Str → Bool
is_some_and test none = false
is_some_and test (some s) = test s

-- The calls that the client makes of a connection.
pub record Connection (E R W : Type 0) : Type 0 where
  pub next_line : R → R × Awaited E (Option Str)
  pub write_all : W → Str → W × Awaited E (Unit {0})
  pub flush : W → W × Awaited E (Unit {0})

-- `IrcMessage::parse(&message).ok_or(RecvError::Parse(message))`
pub parsed_or : {E : Type 0} → Str → Option IrcMessage → Awaited (RecvError E) IrcMessage
parsed_or line none = error (RecvError.parse line)
parsed_or line (some m) = value m

pub receive :
    {E : Type 0} → TagParser → Awaited E (Option Str) → Outcome (Awaited (RecvError E) IrcMessage)
unfolding parsed_or
receive parse_tags (value (some line)) = do
  m ← Message.parse parse_tags line
  done (parsed_or line m)
receive parse_tags (value none) = done (error RecvError.stream_closed)
receive parse_tags (error e) = done (error (RecvError.io e))
receive parse_tags elapsed = done elapsed

-- The match on the second message: the welcome.
pub welcome_for : {E D T : Type 0} → IrcMessage → Command → Outcome (Connected E D T)
unfolding contains
welcome_for m Command.rpl_welcome = done ok
welcome_for m Command.notice = do
  params ← Message.params m
  done (
      if is_some_and (contains (codes "authentication failed")) params
      then failed auth
      else failed (notice m))
welcome_for m _ = done (failed (welcome m))

pub check_welcome : {E D T : Type 0} → Awaited (RecvError E) IrcMessage → Outcome (Connected E D T)
unfolding welcome_for
check_welcome (value m) = do c ← Message.command m; welcome_for m c
check_welcome (error e) = done (failed (read e))
check_welcome elapsed = done (failed timeout)

-- The match on the first message: the acknowledged capabilities.
pub acknowledged_by : {E D T : Type 0} → IrcMessage → Command → Outcome (Connected E D T)
acknowledged_by m Command.capability = do
  params ← Message.params m
  done (if is_some_and (starts_with (codes "* ACK")) params then ok else failed auth)
acknowledged_by m _ = done (failed (welcome m))

pub check_acknowledged :
    {E D T : Type 0} → Awaited (RecvError E) IrcMessage → Outcome (Connected E D T)
unfolding acknowledged_by
check_acknowledged (value m) = do c ← Message.command m; acknowledged_by m c
check_acknowledged (error e) = done (failed (read e))
check_acknowledged elapsed = done (failed timeout)

module _ {E R W : Type 0} (parse_tags : TagParser) (net : Connection E R W) where
  -- `Client::recv`, awaited with its timeout.
  unfoldable pub recv : Client R W → Outcome (Client R W × Awaited (RecvError E) IrcMessage)
  unfolding receive
  recv client = do
    let (reader, line) = net.next_line client.reader
    message ← receive parse_tags line
    done (record client { reader = reader }, message)

  module _ {D T : Type 0} where
    -- What follows the first message.
    pub after_acknowledged : Client R W → Connected E D T → Outcome (Client R W × Connected E D T)
    unfolding recv check_welcome
    after_acknowledged client (failed e) = done (client, failed e)
    after_acknowledged client ok = do
      (client, message) ← recv client
      reply ← check_welcome message
      done (client, reply)

    -- What follows the writes: the buffer is cleared and two messages are read.
    pub after_flush : Client R W → Awaited E (Unit {0}) → Outcome (Client R W × Connected E D T)
    unfolding recv check_acknowledged after_acknowledged
    after_flush client (error e) = done (client, failed (ConnectError.io e))
    after_flush client elapsed = done (client, failed timeout)
    after_flush client (value _) = do
      (client, message) ← recv (record client { scratch = [] })
      reply ← check_acknowledged message
      after_acknowledged client reply

    pub after_write : Client R W → Awaited E (Unit {0}) → Outcome (Client R W × Connected E D T)
    unfolding after_flush
    after_write client (error e) = done (client, failed (ConnectError.io e))
    after_write client elapsed = done (client, failed timeout)
    after_write client (value _) =
        let (writer, flushed) = net.flush client.writer in
        after_flush (record client { writer = writer }) flushed

    -- `Client::handshake`
    unfoldable pub handshake : Client R W → Outcome (Client R W × Connected E D T)
    unfolding login_text after_write
    handshake client =
        let text = client.scratch ++ login_text client.credentials in
        let (writer, written) = net.write_all client.writer text in
        after_write (record client { writer = writer; scratch = text }) written
