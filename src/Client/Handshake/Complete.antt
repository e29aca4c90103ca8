-- ===== src/Client/Handshake/Complete.antt =====
-- Exactly when `Client::handshake` succeeds, and what it leaves.
use tmi_rs.Prelude.{[], ◌++◌, ◌≡◌, ◌↔◌, refl, sym, ap, ◌∙◌, Outcome, done, done_inj}
use tmi_rs.Irc.Command.{Command}
use tmi_rs.Irc.Message
use tmi_rs.Irc.Message.{IrcMessage, TagParser}
use tmi_rs.Client.Errors.{Awaited, value, error, elapsed, Connected, ok}
use tmi_rs.Client.Handshake.{
  Client, Connection, parsed_or, receive, recv, acknowledged_by, check_acknowledged, welcome_for,
  check_welcome, after_acknowledged, after_flush, after_write, handshake, login_text,
}
use tmi_rs.Client.Handshake.Accepted.{Reads, IsAcknowledged, Accepted, handshake-ok}

check_acknowledged-IsAcknowledged :
    {E D T : Type 0} (m : IrcMessage)
    → IsAcknowledged m
    → check_acknowledged {E = E} {D = D} {T = T} (value m) ≡ done ok
unfolding check_acknowledged acknowledged_by
check_acknowledged-IsAcknowledged m h = rw (h.command_lem, h.params_lem, h.acknowledged) refl

check_welcome-rpl_welcome :
    {E D T : Type 0} (m : IrcMessage)
    → Message.command m ≡ done Command.rpl_welcome
    → check_welcome {E = E} {D = D} {T = T} (value m) ≡ done ok
unfolding check_welcome welcome_for
check_welcome-rpl_welcome m e = rw e refl

module _ {E R W : Type 0} (parse_tags : TagParser) (net : Connection E R W) where
  recv-Reads :
      (client : Client R W) (m : IrcMessage)
      → Reads parse_tags net client.reader m
      → recv parse_tags net client
        ≡ done (record client { reader = (net.next_line client.reader).0 }, value m)
  unfolding recv receive parsed_or
  recv-Reads client m h = rw (h.given, h.parsed) refl

  -- The writer after the text of a login, with what stood in the scratch buffer before it.
  abbrev pub logged_in : Client R W → W × Awaited E (Unit {0})
  logged_in client = net.write_all client.writer (client.scratch ++ login_text client.credentials)

  -- The login is written, and the two answers are read.
  pub record Shakes (client : Client R W) : Type 0 where
    pub written : (logged_in client).1 ≡ value tt
    pub flushed : (net.flush (logged_in client).0).1 ≡ value tt
    pub accepted : Accepted parse_tags net client.reader

  -- What is left: the reader behind the two lines, the flushed writer and an empty buffer.
  abbrev pub left_by : Client R W → Client R W
  left_by client = record client {
    reader = (net.next_line (net.next_line client.reader).0).0;
    writer = (net.flush (logged_in client).0).0;
    scratch = [];
  }

  module _ {D T : Type 0} where
    after_write-value :
        (client client' : Client R W) (written : Awaited E (Unit {0}))
        → ◌≡◌ {A = Outcome (Client R W × Connected E D T)}
            (after_write parse_tags net client written)
            (done (client', ok))
        → (written ≡ value tt) × ((net.flush client.writer).1 ≡ value tt)
    unfolding after_write after_flush
    after_write-value client client' (error x) e = cc
    after_write-value client client' elapsed e = cc
    after_write-value client client' (value u) e =
        (refl, flushed (net.flush client.writer).1 refl e)
      where
        flushed :
            (f : Awaited E (Unit {0}))
            → (net.flush client.writer).1 ≡ f
            → ◌≡◌ {A = Outcome (Client R W × Connected E D T)}
                (after_flush parse_tags net
                  (record client { writer = (net.flush client.writer).0 })
                  f)
                (done (client', ok))
            → (net.flush client.writer).1 ≡ value tt
        flushed (error x) same e = cc
        flushed elapsed same e = cc
        flushed (value u) same e = same

    handshake-Shakes :
        (client : Client R W)
        → Shakes client
        → ◌≡◌ {A = Outcome (Client R W × Connected E D T)}
            (handshake parse_tags net client)
            (done (left_by client, ok))
    unfolding handshake after_write after_flush after_acknowledged
    handshake-Shakes client h =
        let a = h.accepted in
        let before = record client { writer = (net.flush (logged_in client).0).0; scratch = [] } in
        let between = record before { reader = (net.next_line client.reader).0 } in
        rw
          (
            h.written,
            h.flushed,
            recv-Reads before a.first a.reads_first,
            check_acknowledged-IsAcknowledged {E = E} {D = D} {T = T} a.first a.acknowledged,
            recv-Reads between a.second a.reads_second,
            check_welcome-rpl_welcome {E = E} {D = D} {T = T} a.second a.welcomed,
          )
          refl

    -- A handshake succeeds exactly if the login, behind what was left in the scratch buffer, is
    -- written and flushed, the first line that is read is a CAP whose params begin with `* ACK`, and
    -- the next one is the welcome 001. It leaves the reader behind these two lines and an empty
    -- buffer.
    pub handshake-ok_iff :
        (client client' : Client R W)
        → ◌≡◌ {A = Outcome (Client R W × Connected E D T)}
            (handshake parse_tags net client)
            (done (client', ok))
          ↔ (Shakes client × (client' ≡ left_by client))
    unfolding handshake
    handshake-ok_iff client client' = (there, back)
      where
        there :
            ◌≡◌ {A = Outcome (Client R W × Connected E D T)}
              (handshake parse_tags net client)
              (done (client', ok))
            → Shakes client × (client' ≡ left_by client)
        there e =
            let (written, flushed) = after_write-value _ client' _ e in
            let shakes : Shakes client = record {
              written = written;
              flushed = flushed;
              accepted = handshake-ok parse_tags net client client' e;
            } in
            let same = done_inj (sym e ∙ handshake-Shakes client shakes) in
            (shakes, ap (λ r. r.0) same)

        back :
            Shakes client × (client' ≡ left_by client)
            → ◌≡◌ {A = Outcome (Client R W × Connected E D T)}
                (handshake parse_tags net client)
                (done (client', ok))
        back (shakes, same) = handshake-Shakes client shakes ∙ ap (λ c. done (c, ok)) (sym same)
