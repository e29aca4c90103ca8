-- ===== src/Client/Tls.antt =====
-- client/conn.rs: the TLS configuration and the opening of a stream, with `Client::connect` of
-- client.rs on them. What the code calls of rustls, its native certificates and tokio are
-- parameters. `Io` stands for io::Error, `X` for rustls::Error and `D` for InvalidDnsNameError.
pub mod Trusted
use tmi_rs.Prelude.{ℕ, List, [], ◌∷◌, Outcome, done}
use tmi_rs.Str.{Str, codes}
use tmi_rs.Client.Errors.{dns, tls, Awaited, value, error, elapsed, Connected}
use tmi_rs.Client.Handshake.{Client}
use tmi_rs.Client.Reconnect.{Dialer}
use tmi_rs.Client.Connect as Connects
use tmi_rs.Client.Connect.{Config, ClientBuilder, loaded, Opened, refused}

-- `Result`
pub data Result (E A : Type 0) : Type 0 where
  ok : A → Result E A
  err : E → Result E A

-- The operator `?`.
abbrev pub and_then : {E A B : Type 0} → Result E A → (A → Result E B) → Result E B
and_then (ok a) f = f a
and_then (err e) f = err e

abbrev pub host : Str
host = codes "irc.chat.twitch.tv"

abbrev pub port : ℕ
port = 6697

pub data TlsConfigError (Io X : Type 0) : Type 0 where
  io : Io → TlsConfigError Io X
  refused_certificate : X → TlsConfigError Io X

pub record TlsConfig (Settings Name : Type 0) : Type 0 where
  pub config : Settings
  pub server_name : Name

-- `RootCertStore`, whose `add` may refuse a certificate, and the configuration that is built with a
-- store.
pub record Roots (Cert Store Settings X : Type 0) : Type 0 where
  pub empty : Store
  pub add : Store → Cert → Result X Store
  pub with_root_certificates : Store → Settings

module _ {X Cert Store Settings : Type 0} (roots : Roots Cert Store Settings X) where
  -- The loop over the native certificates, which an error leaves.
  pub add_all : Store → List Cert → Result X Store
  add_all store [] = ok store
  add_all store (cert ∷ certs) = and_then (roots.add store cert) λ store'. add_all store' certs

module _ {Io X Cert Store Settings Name : Type 0} (roots : Roots Cert Store Settings X) where
  -- What is built behind the loop.
  pub configured : Name → Result X Store → Result (TlsConfigError Io X) (TlsConfig Settings Name)
  configured name (err e) = err (refused_certificate e)
  configured name (ok store) =
      ok (record { config = roots.with_root_certificates store; server_name = name })

  -- `TlsConfig::load`, with what `load_native_certs` gives.
  unfoldable pub load :
      Name → Result Io (List Cert) → Result (TlsConfigError Io X) (TlsConfig Settings Name)
  unfolding configured add_all
  load name (err e) = err (io e)
  load name (ok certs) = configured name (add_all roots roots.empty certs)

-- The two connects of `open`, the timeout around it, the splitting of a stream, and `sleep`.
pub record Network (Io Settings Name Tcp Stream R W S : Type 0) : Type 0 where
  pub tcp_connect : Str → ℕ → S → S × Result Io Tcp
  pub tls_connect : Settings → Name → Tcp → S → S × Result Io Stream
  pub in_time : ℕ → S × Result Io Stream → S × Awaited Io Stream
  pub split : Stream → R × W
  pub sleep : S → ℕ → S

module _ {Io Settings Name Tcp Stream R W S : Type 0}
    (network : Network Io Settings Name Tcp Stream R W S) where
  -- What is done with the socket.
  pub secure : TlsConfig Settings Name → S → Result Io Tcp → S × Result Io Stream
  secure config s (err e) = (s, err e)
  secure config s (ok tcp) = network.tls_connect config.config config.server_name tcp s

  -- `open`
  unfoldable pub open_tls : TlsConfig Settings Name → S → S × Result Io Stream
  unfolding secure
  open_tls config s = let (s', tcp) = network.tcp_connect host port s in secure config s' tcp

  pub split_stream : Awaited Io Stream → Awaited Io (R × W)
  split_stream (value stream) = value (network.split stream)
  split_stream (error e) = error e
  split_stream elapsed = elapsed

  -- `conn::open(tls).timeout(timeout).await` and `split`
  pub dialer : ℕ → TlsConfig Settings Name → Dialer Io R W S
  unfolding open_tls split_stream
  dialer timeout config = record {
    sleep = network.sleep;
    dial = λ s.
        let (s', stream) = network.in_time timeout (open_tls config s) in (s', split_stream stream);
  }

  module _ {D X Cert Store : Type 0} (roots : Roots Cert Store Settings X)
      (handshake : Client R W → Outcome (Client R W × Connected Io D (TlsConfigError Io X))) where
    -- `Client::connect` behind the loading of TLS.
    pub connect_with :
        Config
        → S
        → Result (TlsConfigError Io X) (TlsConfig Settings Name)
        → Outcome (S × Opened Io D (TlsConfigError Io X) R W)
    unfolding dialer
    connect_with config s (err e) = done (s, refused (tls e))
    connect_with config s (ok tls_config) =
        Connects.connect (dialer config.timeout tls_config) handshake loaded config s

    -- What `ServerName::try_from(conn::HOST)` gives, and then `TlsConfig::load`.
    pub connect_to :
        Config
        → S
        → Result Io (List Cert)
        → Result D Name
        → Outcome (S × Opened Io D (TlsConfigError Io X) R W)
    unfolding connect_with load
    connect_to config s native_certs (err e) = done (s, refused (dns e))
    connect_to config s native_certs (ok name) =
        connect_with config s (load roots name native_certs)

    -- `Client::connect`
    unfoldable pub connect :
        (Str → Result D Name)
        → Result Io (List Cert)
        → Config
        → S
        → Outcome (S × Opened Io D (TlsConfigError Io X) R W)
    unfolding connect_to
    connect try_from native_certs config s = connect_to config s native_certs (try_from host)
