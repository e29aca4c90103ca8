-- ===== src/Client/Tls/Trusted.antt =====
-- client/conn.rs and client.rs: the stream and the certificates of a client that connects.
use tmi_rs.Prelude.{ℕ, List, [], ◌∷◌, ◌≡◌, refl, ap, sym, ◌∙◌, Outcome, done}
use tmi_rs.Str.{Str}
use tmi_rs.Client.Errors.{Awaited, value, error, elapsed, Connected}
use tmi_rs.Client.Errors as Errors
use tmi_rs.Client.Handshake.{Client}
use tmi_rs.Client.Connect.{Config, opened}
use tmi_rs.Client.Connect.Shaken.{connect-IsShaken, fresh}
use tmi_rs.Client.Tls.{
  Roots, Result, ok, err, and_then, host, port, TlsConfig, TlsConfigError, add_all, configured,
  load, Network, secure, open_tls, split_stream, dialer, connect_with, connect_to, connect,
}

-- The certificates are accepted one after the other, and change the first store into the last.
abbrev pub Adds :
    {X Cert Store Settings : Type 0}
    → Roots Cert Store Settings X
    → Store
    → List Cert
    → Store
    → Type 0
Adds roots store [] last = store ≡ last
Adds {Store = Store} roots store (cert ∷ certs) last =
    (next : Store) × (roots.add store cert ≡ ok next) × Adds roots next certs last

and_then-ok :
    {E A B : Type 0} (r : Result E A) (f : A → Result E B) (b : B)
    → and_then r f ≡ ok b
    → (a : A) × (r ≡ ok a) × (f a ≡ ok b)
and_then-ok (ok a) f b e = (a, refl, e)
and_then-ok (err x) f b e = cc

add_all-Adds :
    {X Cert Store Settings : Type 0} (roots : Roots Cert Store Settings X) (certs : List Cert)
    (store last : Store)
    → add_all roots store certs ≡ ok last
    → Adds roots store certs last
unfolding add_all
add_all-Adds roots [] store last e = cc
add_all-Adds roots (cert ∷ certs) store last e =
    let (next, added, rest) = and_then-ok (roots.add store cert) _ last e in
    (next, added, add_all-Adds roots certs next last rest)

-- `tokio::time::timeout`: the output of the future, or nothing in time.
pub record IsTimely {Io Settings Name Tcp Stream R W S : Type 0}
    (network : Network Io Settings Name Tcp Stream R W S) : Type 0 where
  pub in_time_lem :
      (t : ℕ) (out : S × Result Io Stream) (s : S) (stream : Stream)
      → network.in_time t out ≡ (s, value stream)
      → out ≡ (s, ok stream)

pair_inj :
    {A B : Type 0} {a a' : A} {b b' : B} → ◌≡◌ {A = A × B} (a, b) (a', b') → (a ≡ a') × (b ≡ b')
pair_inj e = (ap (λ x. x.0) e, ap (λ x. x.1) e)

module _ {Io Settings Name Tcp Stream R W S : Type 0}
    (network : Network Io Settings Name Tcp Stream R W S) where
  -- A stream that `open` gives is secured over a socket to the host.
  open_tls-ok :
      (config : TlsConfig Settings Name) (s s' : S) (stream : Stream)
      → open_tls network config s ≡ (s', ok stream)
      → (between : S) × (tcp : Tcp) × (network.tcp_connect host port s ≡ (between, ok tcp))
        × (network.tls_connect config.config config.server_name tcp between ≡ (s', ok stream))
  unfolding open_tls secure
  open_tls-ok config s s' stream e = go (network.tcp_connect host port s) refl e
    where
      go :
          (out : S × Result Io Tcp)
          → network.tcp_connect host port s ≡ out
          → secure network config out.0 out.1 ≡ (s', ok stream)
          → (between : S) × (tcp : Tcp) × (network.tcp_connect host port s ≡ (between, ok tcp))
            × (network.tls_connect config.config config.server_name tcp between ≡ (s', ok stream))
      go (between, ok tcp) got given = (between, tcp, got, given)
      go (between, err x) got given = cc

  dial-value :
      (timeout : ℕ) (config : TlsConfig Settings Name) (s s' : S) (ends : R × W)
      → (dialer network timeout config).dial s ≡ (s', value ends)
      → (stream : Stream) × (network.in_time timeout (open_tls network config s)
          ≡ (s', value stream))
        × (network.split stream ≡ ends)
  unfolding dialer split_stream
  dial-value timeout config s s' ends e =
      go (network.in_time timeout (open_tls network config s)) refl e
    where
      go :
          (out : S × Awaited Io Stream)
          → network.in_time timeout (open_tls network config s) ≡ out
          → ◌≡◌ {A = S × Awaited Io (R × W)} (out.0, split_stream network out.1) (s', value ends)
          → (stream : Stream) × (network.in_time timeout (open_tls network config s)
              ≡ (s', value stream))
            × (network.split stream ≡ ends)
      go (after, value stream) got given = (stream, got ∙ cc, cc)
      go (after, error x) got given = cc
      go (after, elapsed) got given = cc

  module _ {D X Cert Store : Type 0} (roots : Roots Cert Store Settings X)
      (handshake : Client R W → Outcome (Client R W × Connected Io D (TlsConfigError Io X))) where
    -- How a client has been connected: the server has a name, all native certificates are trusted, a
    -- socket to the host was opened and secured with them, and the handshake on its two ends has left
    -- the client.
    pub record Secured (try_from : Str → Result D Name) (native_certs : Result Io (List Cert))
        (config : Config) (s s' : S) (client : Client R W) : Type 0 where
      pub name : Name
      pub certs : List Cert
      pub store : Store
      pub between : S
      pub tcp : Tcp
      pub stream : Stream
      pub named : try_from host ≡ ok name
      pub loaded : native_certs ≡ ok certs
      pub trusted : Adds roots roots.empty certs store
      pub reached : network.tcp_connect host port s ≡ (between, ok tcp)
      pub secured :
          network.tls_connect (roots.with_root_certificates store) name tcp between
          ≡ (s', ok stream)
      pub shaken :
          handshake (fresh config.credentials (network.split stream)) ≡ done (client, Errors.ok)

    load-ok :
        (name : Name) (native_certs : Result Io (List Cert)) (config : TlsConfig Settings Name)
        → load roots name native_certs ≡ ok config
        → (certs : List Cert) × (store : Store) × (native_certs ≡ ok certs)
          × Adds roots roots.empty certs store
          × (config ≡ record { config = roots.with_root_certificates store; server_name = name })
    unfolding load configured
    load-ok name (err x) config e = cc
    load-ok name (ok certs) config e = go (add_all roots roots.empty certs) refl e
      where
        go :
            (r : Result X Store)
            → add_all roots roots.empty certs ≡ r
            → configured {Io = Io} roots name r ≡ ok config
            → (certs' : List Cert) × (store : Store) × (◌≡◌ {A = Result Io (List Cert)}
                (ok certs)
                (ok certs'))
              × Adds roots roots.empty certs' store
              × (config
                  ≡ record { config = roots.with_root_certificates store; server_name = name })
        go (ok store) got given =
            (certs, store, refl, add_all-Adds roots certs roots.empty store got, cc)
        go (err x) got given = cc

    -- A client that connects is `Secured`: the native certificates could all be read and added to the
    -- store, one after the other, and the stream behind the client was opened to the host and port
    -- of Twitch with that store and the host's name. A timeout gives the output of what it waits for
    -- or nothing.
    pub connect-Secured :
        IsTimely network
        → (try_from : Str → Result D Name) (native_certs : Result Io (List Cert)) (config : Config)
          (s s' : S) (client : Client R W)
        → connect network roots handshake try_from native_certs config s ≡ done (s', opened client)
        → Secured try_from native_certs config s s' client
    unfolding connect connect_to connect_with
    connect-Secured timely try_from native_certs config s s' client e = named (try_from host) refl e
      where
        with_tls :
            (name : Name)
            → try_from host ≡ ok name
            → (r : Result (TlsConfigError Io X) (TlsConfig Settings Name))
            → load roots name native_certs ≡ r
            → connect_with network roots handshake config s r ≡ done (s', opened client)
            → Secured try_from native_certs config s s' client
        with_tls name is_name (err x) got given = cc
        with_tls name is_name (ok tls_config) got given =
            let (ends, dialled, shook) =
              connect-IsShaken (dialer network config.timeout tls_config) handshake config s s'
                client given in
            let (stream, waited, halves) = dial-value config.timeout tls_config s s' ends dialled in
            let (between, tcp, reached, secured) = open_tls-ok tls_config s s' stream (
              timely.in_time_lem config.timeout (open_tls network tls_config s) s' stream waited) in
            let (certs, store, are_certs, added, same) = load-ok name native_certs tls_config got in
            record {
              name = name;
              certs = certs;
              store = store;
              between = between;
              tcp = tcp;
              stream = stream;
              named = is_name;
              loaded = are_certs;
              trusted = added;
              reached = reached;
              secured =
                  ap
                    (λ (c : TlsConfig Settings Name).
                      network.tls_connect c.config c.server_name tcp between)
                    (sym same)
                  ∙ secured;
              shaken = rw halves shook;
            }

        named :
            (r : Result D Name)
            → try_from host ≡ r
            → connect_to network roots handshake config s native_certs r ≡ done (s', opened client)
            → Secured try_from native_certs config s s' client
        named (ok name) is_name given =
            with_tls name is_name (load roots name native_certs) refl given
        named (err x) is_name given = cc
