-- ===== src/Examples/Tls.antt =====
-- An instance of the theorem on the certificates and the stream of a client that connects.
use tmi_rs.Prelude.{ℕ, ◌==◌, ◌≡◌, List, [], ◌∷◌, ◌++◌, if◌then◌else◌, refl, Outcome, done}
use tmi_rs.Str.{
  Str, codes, starts_with, slice, slice_from, is_char_boundary, strip_prefix, find, eq, lookup,
}
use tmi_rs.Irc.Span as Spans
use tmi_rs.Irc.Prefix as Prefixes
use tmi_rs.Irc.Channel
use tmi_rs.Irc.Command as Commands
use tmi_rs.Irc.Tags.Scalar as Scalars
use tmi_rs.Irc.Message
use tmi_rs.Client.Errors.{Connected, value}
use tmi_rs.Client.Errors as Errors
use tmi_rs.Client.Handshake.{Client, recv, handshake}
use tmi_rs.Client.Connect.{default_config, anon, opened}
use tmi_rs.Client.Connect as Connects
use tmi_rs.Client.Tls.{Roots, Result, ok, err, TlsConfigError, Network, open_tls, connect, load}
use tmi_rs.Client.Tls.Trusted.{IsTimely, Secured, connect-Secured}
use tmi_rs.Examples.Clients.{accepting, anonymous}

-- Certificates are numbers, and zero is refused.
roots : Roots ℕ (List ℕ) (List ℕ) ℕ
roots = record {
  empty = [];
  add = λ store cert. if cert == 0 then err 7 else ok (store ++ cert ∷ []);
  with_root_certificates = λ store. store;
}

-- A network that gives a stream at once, and logs the port and the certificates.
reachable : Network ℕ (List ℕ) Str ℕ ℕ ℕ ℕ (List ℕ)
reachable = record {
  tcp_connect = λ host port log. (log ++ port ∷ [], ok 1);
  tls_connect = λ settings name tcp log. (log ++ settings, ok 0);
  in_time = λ t out. (out.0, elim out.1 [ ok stream ↦ value stream | err e ↦ Errors.error e ]);
  split = λ stream. (stream, stream);
  sleep = λ log delay. log ++ delay ∷ [];
}

reachable-IsTimely : IsTimely reachable
unfolding reachable
reachable-IsTimely = record { in_time_lem = λ t out s stream e. go out s stream e }
  where
    go :
        (out : List ℕ × Result ℕ ℕ) (s : List ℕ) (stream : ℕ)
        → reachable.in_time 0 out ≡ (s, value stream)
        → out ≡ (s, ok stream)
    go (log, ok x) s stream e = cc
    go (log, err x) s stream e = cc

abbrev login : Client ℕ ℕ → Outcome (Client ℕ ℕ × Connected ℕ ℕ (TlsConfigError ℕ ℕ))
login = handshake Scalars.parse accepting

first_connection :
    connect reachable roots login
      (λ host. ok host)
      (ok (3 ∷ 4 ∷ []))
      (default_config (codes "12345"))
      []
    ≡ done (6697 ∷ 3 ∷ 4 ∷ [], opened (record anonymous { reader = 2 }))
unfolding reachable roots connect load open_tls Connects.connect default_config anon accepting
    handshake recv Message.parse Message.command Message.params Scalars.parse slice slice_from
    is_char_boundary strip_prefix starts_with find eq Spans.index Spans.from Prefixes.parse
    Prefixes.index_option Commands.parse Commands.classify lookup Commands.get Channel.parse
    Channel.parse_params
first_connection = refl

connect-Secured_example :
    Secured reachable roots login
      (λ host. ok host)
      (ok (3 ∷ 4 ∷ []))
      (default_config (codes "12345"))
      []
      (6697 ∷ 3 ∷ 4 ∷ [])
      (record anonymous { reader = 2 })
connect-Secured_example =
    connect-Secured reachable roots login reachable-IsTimely (λ host. ok host) (ok (3 ∷ 4 ∷ []))
      (default_config (codes "12345")) [] (6697 ∷ 3 ∷ 4 ∷ []) (record anonymous { reader = 2 })
      first_connection
