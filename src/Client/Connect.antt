-- ===== src/Client/Connect.antt =====
-- client.rs: `Config`, `ClientBuilder`, and the first connection, `Client::connect`. Durations are
-- in nanoseconds. Random numbers, their printing, and the loading of TLS are the caller's.
pub mod Shaken
use tmi_rs.Prelude.{
  ℕ, ◌*◌, Bool, true, false, List, [], ◌∷◌, ◌++◌, Option, none, some, Outcome, done, ◌>>=◌,
}
use tmi_rs.Str.{Str, codes}
use tmi_rs.Client.Errors.{
  ConnectError, dns, tls, open_stream, timeout, Awaited, value, error, elapsed, Connected, ok,
  failed,
}
use tmi_rs.Client.Handshake.{Credentials, Client}
use tmi_rs.Client.Reconnect.{Backoff, Dialer, default_backoff, second}

-- `Credentials::new`
pub new : Str → Str → Credentials
new login token = record { login = login; token = some token }

-- `Credentials::anon`, with the printed random number.
unfoldable pub anon : Str → Credentials
anon number = record { login = codes "justinfan" ++ number; token = none }

no_token : Option Str → Bool
no_token none = true
no_token (some token) = false

-- `Credentials::is_anon`
unfoldable pub is_anon : Credentials → Bool
unfolding no_token
is_anon c = no_token c.token

pub record Config : Type 0 where
  pub credentials : Credentials
  pub timeout : ℕ
  pub backoff : Backoff

abbrev pub default_timeout : ℕ
default_timeout = 30 * second

-- `impl Default for Config`
unfoldable pub default_config : Str → Config
unfolding anon
default_config number = record {
  credentials = anon number;
  timeout = default_timeout;
  backoff = default_backoff;
}

-- `ClientBuilder`, whose only field is the configuration, and its setters.
pub record ClientBuilder : Type 0 where
  pub config : Config

unfoldable pub builder : Str → ClientBuilder
unfolding default_config
builder number = record { config = default_config number }

unfoldable pub with_credentials : Credentials → ClientBuilder → ClientBuilder
with_credentials c b = record b { config = record b.config { credentials = c } }

unfoldable pub with_timeout : ℕ → ClientBuilder → ClientBuilder
with_timeout t b = record b { config = record b.config { timeout = t } }

unfoldable pub with_backoff : Backoff → ClientBuilder → ClientBuilder
with_backoff k b = record b { config = record b.config { backoff = k } }

-- `ServerName::try_from` and `TlsConfig::load`: an error of one of them, or a configuration.
pub data Loaded (D T : Type 0) : Type 0 where
  no_name : D → Loaded D T
  no_tls : T → Loaded D T
  loaded : Loaded D T

-- `Result<Client, ConnectError>`
pub data Opened (E D T R W : Type 0) : Type 0 where
  opened : Client R W → Opened E D T R W
  refused : ConnectError E D T → Opened E D T R W

module _ {E D T R W S : Type 0} (dialer : Dialer E R W S)
    (handshake : Client R W → Outcome (Client R W × Connected E D T)) where
  -- `client.handshake().timeout(timeout).await??; Ok(client)`
  pub shaken : Client R W → Connected E D T → Opened E D T R W
  shaken client ok = opened client
  shaken client (failed e) = refused e

  -- What is done with the stream.
  pub after_dial : Config → S → Awaited E (R × W) → Outcome (S × Opened E D T R W)
  unfolding shaken
  after_dial config s (error e) = done (s, refused (open_stream e))
  after_dial config s elapsed = done (s, refused timeout)
  after_dial config s (value (reader, writer)) = do
    (client, reply) ← handshake (record {
      reader = reader;
      writer = writer;
      scratch = [];
      credentials = config.credentials;
    })
    done (s, shaken client reply)

  -- `Client::connect`
  unfoldable pub connect : Loaded D T → Config → S → Outcome (S × Opened E D T R W)
  unfolding after_dial
  connect (no_name e) config s = done (s, refused (dns e))
  connect (no_tls e) config s = done (s, refused (tls e))
  connect loaded config s = let (s', stream) = dialer.dial s in after_dial config s' stream

  -- `ClientBuilder::connect`
  unfoldable pub build : Loaded D T → ClientBuilder → S → Outcome (S × Opened E D T R W)
  unfolding connect
  build tls_config b s = connect tls_config b.config s

  -- `Client::anonymous`
  unfoldable pub anonymous : Loaded D T → Str → S → Outcome (S × Opened E D T R W)
  unfolding connect default_config
  anonymous tls_config number s = connect tls_config (default_config number) s
