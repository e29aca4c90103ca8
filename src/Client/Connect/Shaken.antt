-- ===== src/Client/Connect/Shaken.antt =====
-- The client of a first connection.
use tmi_rs.Prelude.{[], ◌≡◌, refl, ap, ◌∙◌, Outcome, done, >>=_inv, done_inj}
use tmi_rs.Client.Errors.{Awaited, value, error, elapsed, Connected, ok, failed}
use tmi_rs.Client.Handshake.{Credentials, Client}
use tmi_rs.Client.Reconnect.{Dialer}
use tmi_rs.Client.Connect.{
  Config, ClientBuilder, with_credentials, Loaded, no_name, no_tls, loaded, opened, shaken,
  after_dial, connect, build,
}

pair : {A B : Type 0} {a a' : A} {b b' : B} → a ≡ a' → b ≡ b' → ◌≡◌ {A = A × B} (a, b) (a', b')
pair ea eb = cc

-- The client that a handshake starts with.
abbrev pub fresh : {R W : Type 0} → Credentials → R × W → Client R W
fresh c (reader, writer) = record {
  reader = reader;
  writer = writer;
  scratch = [];
  credentials = c;
}

module _ {E D T R W S : Type 0} (dialer : Dialer E R W S)
    (handshake : Client R W → Outcome (Client R W × Connected E D T)) where
  shaken-opened :
      (client out : Client R W) (reply : Connected E D T)
      → shaken dialer handshake client reply ≡ opened out
      → (reply ≡ ok) × (client ≡ out)
  unfolding shaken
  shaken-opened client out ok e = (refl, cc)
  shaken-opened client out (failed err) e = cc

  after_dial-opened :
      (config : Config) (s s' : S) (stream : Awaited E (R × W)) (client : Client R W)
      → after_dial dialer handshake config s stream ≡ done (s', opened client)
      → (s ≡ s')
        × ((ends : R × W) × (stream ≡ value ends)
            × (handshake (fresh config.credentials ends) ≡ done (client, ok)))
  unfolding after_dial
  after_dial-opened config s s' (error err) client e = cc
  after_dial-opened config s s' elapsed client e = cc
  after_dial-opened config s s' (value ends) client e =
      let ((left, reply), shook, given) =
        >>=_inv (handshake (fresh config.credentials ends)) _ (s', opened client) e in
      let same_s : s ≡ s' = ap (λ x. x.0) (done_inj given) in
      let (is_ok, same) = shaken-opened left client reply (ap (λ x. x.1) (done_inj given)) in
      (same_s, (ends, refl, shook ∙ ap (λ x. done x) (pair same is_ok)))

  -- The client of a connection, once TLS is loaded.
  pub connect-IsShaken :
      (config : Config) (s s' : S) (client : Client R W)
      → connect dialer handshake loaded config s ≡ done (s', opened client)
      → (stream : R × W) × (dialer.dial s ≡ (s', value stream))
        × (handshake (fresh config.credentials stream) ≡ done (client, ok))
  unfolding connect
  connect-IsShaken config s s' client e =
      let (dialled, stream) = dialer.dial s in
      let (same, (ends, got, shook)) = after_dial-opened config dialled s' stream client e in
      (ends, pair same got, shook)

  -- If a builder with these credentials connects, TLS has been loaded, a stream has been opened, and
  -- the client is as a handshake has left it that succeeded, which began on that stream with an
  -- empty buffer and these credentials.
  pub build-IsShaken :
      (tls_config : Loaded D T) (c : Credentials) (b : ClientBuilder) (s s' : S)
      (client : Client R W)
      → build dialer handshake tls_config (with_credentials c b) s ≡ done (s', opened client)
      → (tls_config ≡ loaded)
        × ((stream : R × W) × (dialer.dial s ≡ (s', value stream))
            × (handshake (fresh c stream) ≡ done (client, ok)))
  unfolding build connect with_credentials after_dial
  build-IsShaken (no_name err) c b s s' client e = cc
  build-IsShaken (no_tls err) c b s s' client e = cc
  build-IsShaken loaded c b s s' client e =
      (refl, connect-IsShaken (record b.config { credentials = c }) s s' client e)
