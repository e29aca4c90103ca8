-- ===== src/Client/Handshake/Scratch.antt =====
-- What a handshake leaves in the scratch buffer.
use tmi_rs.Prelude.{[], ◌++◌, ◌≡◌, refl, true, Outcome, done}
use tmi_rs.Irc.Message.{TagParser}
use tmi_rs.Client.Errors.{ConnectError, error, Connected, failed, should_retry}
use tmi_rs.Client.Handshake.{Client, Connection, login_text, after_write, handshake}

module _ {E D T R W : Type 0} (parse_tags : TagParser) (net : Connection E R W) where
  -- A handshake whose write fails keeps its text in the buffer and gives an error that is tried
  -- again; the next handshake, on a new stream, then writes the text twice.
  pub handshake_resent :
      (client : Client R W) (reader : R) (writer : W) (e : E)
      → client.scratch ≡ []
      → (net.write_all client.writer (login_text client.credentials)).1 ≡ error e
      → (unsent : Client R W) × (◌≡◌ {A = Outcome (Client R W × Connected E D T)}
          (handshake parse_tags net client)
          (done (unsent, failed (ConnectError.io e))))
        × (should_retry {D = D} {T = T} (ConnectError.io e) ≡ true)
        × (◌≡◌ {A = Outcome (Client R W × Connected E D T)}
            (handshake parse_tags net (record unsent { reader = reader; writer = writer }))
            (let text = login_text client.credentials ++ login_text client.credentials in
              let (writer', written) = net.write_all writer text in
              after_write parse_tags net
                (record client { reader = reader; writer = writer'; scratch = text })
                written))
  unfolding handshake should_retry after_write
  handshake_resent client reader writer e empty fails = (
    record client {
      writer = (net.write_all client.writer (login_text client.credentials)).0;
      scratch = login_text client.credentials;
    },
    rw (empty, fails) refl,
    refl,
    refl,
  )
