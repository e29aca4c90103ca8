-- ===== src/Client/Handshake/Accepted.antt =====
-- What a handshake that succeeds has read.
use tmi_rs.Prelude.{
  [], ◌≡◌, refl, ap, ◌∙◌, subst, true, Bool-cases, inl, inr, Option, none, some, Outcome, done,
  panicked, spinning, ◌>>=◌, if◌then◌else◌,
}
use tmi_rs.Str.{Str, codes, starts_with}
use tmi_rs.Irc.Command.{Command}
use tmi_rs.Irc.Message
use tmi_rs.Irc.Message.{IrcMessage, TagParser}
use tmi_rs.Client.Errors.{RecvError, auth, Awaited, error, elapsed, value, Connected, ok, failed}
use tmi_rs.Client.Handshake.{
  Client, Connection, contains, is_some_and, parsed_or, receive, recv, acknowledged_by,
  check_acknowledged, welcome_for, check_welcome, after_acknowledged, after_flush, after_write,
  handshake,
}

pub bind-done {ℓ κ} :
    {A : Type ℓ} {B : Type κ} (m : Outcome A) (f : A → Outcome B) (b : B)
    → (m >>= f) ≡ done b
    → (a : A) × (m ≡ done a) × (f a ≡ done b)
bind-done (done a) f b e = (a, refl, e)
bind-done panicked f b e = cc
bind-done spinning f b e = cc

-- The message on the line that the reader gives next.
pub record Reads {E R W : Type 0} (parse_tags : TagParser) (net : Connection E R W) (reader : R)
    (m : IrcMessage) : Type 0 where
  pub line : Str
  pub given : (net.next_line reader).1 ≡ value (some line)
  pub parsed : Message.parse parse_tags line ≡ done (some m)

-- The first message of an accepted login.
pub record IsAcknowledged (m : IrcMessage) : Type 0 where
  pub params : Str
  pub command_lem : Message.command m ≡ done Command.capability
  pub params_lem : Message.params m ≡ done (some params)
  pub acknowledged : starts_with (codes "* ACK") params ≡ true

parsed_or-value :
    {E : Type 0} (line : Str) (o : Option IrcMessage) (m : IrcMessage)
    → done (parsed_or {E = E} line o) ≡ done (value m)
    → o ≡ some m
unfolding parsed_or
parsed_or-value line none m e = cc
parsed_or-value line (some m') m e = cc

receive-value :
    {E : Type 0} (parse_tags : TagParser) (given : Awaited E (Option Str)) (m : IrcMessage)
    → receive parse_tags given ≡ done (value m)
    → (line : Str) × (given ≡ value (some line)) × (Message.parse parse_tags line ≡ done (some m))
unfolding receive parsed_or
receive-value parse_tags (value (some line)) m e =
    let (o, parsed, e') = bind-done (Message.parse parse_tags line) _ _ e in
    (line, refl, let same = parsed_or-value line o m e' in cc)
receive-value parse_tags (value none) m e = cc
receive-value parse_tags (error x) m e = cc
receive-value parse_tags elapsed m e = cc

acknowledged_params :
    {E D T : Type 0} (o : Option Str)
    → ◌≡◌ {A = Outcome (Connected E D T)}
        (done (if is_some_and (starts_with (codes "* ACK")) o then ok else failed auth))
        (done ok)
    → (p : Str) × (o ≡ some p) × (starts_with (codes "* ACK") p ≡ true)
acknowledged_params none e = cc
acknowledged_params (some p) e = elim (Bool-cases (starts_with (codes "* ACK") p)) [
  | inl t ↦ (p, refl, t)
  | inr t ↦ cc
]

acknowledged_by-ok :
    {E D T : Type 0} (m : IrcMessage) (c : Command)
    → acknowledged_by {E = E} {D = D} {T = T} m c ≡ done ok
    → Message.command m ≡ done c
    → IsAcknowledged m
unfolding acknowledged_by
acknowledged_by-ok m Command.capability e at =
    let (o, got, e') = bind-done (Message.params m) _ _ e in
    let (p, same, starts) = acknowledged_params o e' in
    record {
      params = p;
      command_lem = at;
      params_lem = got ∙ ap (λ o. done o) same;
      acknowledged = starts;
    }
acknowledged_by-ok m _ e at = cc

welcome_for-ok :
    {E D T : Type 0} (m : IrcMessage) (c : Command)
    → welcome_for {E = E} {D = D} {T = T} m c ≡ done ok
    → c ≡ Command.rpl_welcome
unfolding welcome_for
welcome_for-ok m Command.rpl_welcome e = refl
welcome_for-ok m Command.notice e =
    let (o, got, e') = bind-done (Message.params m) _ _ e in
    elim (Bool-cases (is_some_and (contains (codes "authentication failed")) o)) [
      | inl t ↦ cc
      | inr t ↦ cc
    ]
welcome_for-ok m _ e = cc

check_acknowledged-ok :
    {E D T : Type 0} (message : Awaited (RecvError E) IrcMessage)
    → check_acknowledged {E = E} {D = D} {T = T} message ≡ done ok
    → (m : IrcMessage) × (message ≡ value m) × IsAcknowledged m
unfolding check_acknowledged
check_acknowledged-ok (value m) e =
    let (c, got, e') = bind-done (Message.command m) _ _ e in
    (m, refl, acknowledged_by-ok m c e' got)
check_acknowledged-ok (error x) e = cc
check_acknowledged-ok elapsed e = cc

check_welcome-ok :
    {E D T : Type 0} (message : Awaited (RecvError E) IrcMessage)
    → check_welcome {E = E} {D = D} {T = T} message ≡ done ok
    → (m : IrcMessage) × (message ≡ value m) × (Message.command m ≡ done Command.rpl_welcome)
unfolding check_welcome
check_welcome-ok (value m) e =
    let (c, got, e') = bind-done (Message.command m) _ _ e in
    (m, refl, got ∙ ap (λ c. done c) (welcome_for-ok m c e'))
check_welcome-ok (error x) e = cc
check_welcome-ok elapsed e = cc

-- What a successful handshake has read: two lines, in order.
pub record Accepted {E R W : Type 0} (parse_tags : TagParser) (net : Connection E R W) (reader : R)
    : Type 0 where
  pub first : IrcMessage
  pub second : IrcMessage
  pub reads_first : Reads parse_tags net reader first
  pub acknowledged : IsAcknowledged first
  pub reads_second : Reads parse_tags net (net.next_line reader).0 second
  pub welcomed : Message.command second ≡ done Command.rpl_welcome

module _ {E R W : Type 0} (parse_tags : TagParser) (net : Connection E R W) where
  recv-done :
      (client client' : Client R W) (message : Awaited (RecvError E) IrcMessage) (m : IrcMessage)
      → recv parse_tags net client ≡ done (client', message)
      → message ≡ value m
      → Reads parse_tags net client.reader m × (client'.reader ≡ (net.next_line client.reader).0)
  unfolding recv
  recv-done client client' message m e is_value =
      let (message', got, e') =
        bind-done (receive parse_tags (net.next_line client.reader).1) _ _ e in
      let same : message' ≡ value m = cc in
      let (line, given, parsed) =
        receive-value parse_tags (net.next_line client.reader).1 m (got ∙ ap (λ r. done r) same) in
      (record { line = line; given = given; parsed = parsed }, cc)

  module _ {D T : Type 0} where
    after_acknowledged-ok :
        (client client' : Client R W) (reply : Connected E D T)
        → after_acknowledged parse_tags net client reply ≡ done (client', ok)
        → (reply ≡ ok)
          × (m : IrcMessage) × Reads parse_tags net client.reader m
          × (Message.command m ≡ done Command.rpl_welcome)
    unfolding after_acknowledged
    after_acknowledged-ok client client' (failed x) e = cc
    after_acknowledged-ok client client' ok e =
        let (r, got, e') = bind-done (recv parse_tags net client) _ _ e in
        let (reply, checked, e'') = bind-done (check_welcome r.1) _ _ e' in
        let good : reply ≡ ok = cc in
        let (m, is_value, command) = check_welcome-ok r.1 (checked ∙ ap (λ r. done r) good) in
        (refl, m, (recv-done client r.0 r.1 m got is_value).0, command)

    after_flush-ok :
        (client client' : Client R W) (flushed : Awaited E (Unit {0}))
        → ◌≡◌ {A = Outcome (Client R W × Connected E D T)}
            (after_flush parse_tags net client flushed)
            (done (client', ok))
        → Accepted parse_tags net client.reader
    unfolding after_flush
    after_flush-ok client client' (error x) e = cc
    after_flush-ok client client' elapsed e = cc
    after_flush-ok client client' (value u) e =
        let cleared = record client { scratch = [] } in
        let (r, got, e') = bind-done (recv parse_tags net cleared) _ _ e in
        let (reply, checked, e'') = bind-done (check_acknowledged r.1) _ _ e' in
        let (good, second, reads, command) = after_acknowledged-ok r.0 client' reply e'' in
        let (first, is_value, acknowledged) =
          check_acknowledged-ok r.1 (checked ∙ ap (λ r. done r) good) in
        let (reads_first, next) = recv-done cleared r.0 r.1 first got is_value in
        record {
          first = first;
          second = second;
          reads_first = reads_first;
          acknowledged = acknowledged;
          reads_second = subst (λ reader. Reads parse_tags net reader second) next reads;
          welcomed = command;
        }

    after_write-ok :
        (client client' : Client R W) (written : Awaited E (Unit {0}))
        → ◌≡◌ {A = Outcome (Client R W × Connected E D T)}
            (after_write parse_tags net client written)
            (done (client', ok))
        → Accepted parse_tags net client.reader
    unfolding after_write
    after_write-ok client client' (error x) e = cc
    after_write-ok client client' elapsed e = cc
    after_write-ok client client' (value u) e = after_flush-ok _ client' _ e

    -- A handshake succeeds only if the first line that it reads is a CAP whose params begin with
    -- `* ACK`, and the next one is the welcome 001.
    pub handshake-ok :
        (client client' : Client R W)
        → ◌≡◌ {A = Outcome (Client R W × Connected E D T)}
            (handshake parse_tags net client)
            (done (client', ok))
        → Accepted parse_tags net client.reader
    unfolding handshake
    handshake-ok client client' e = after_write-ok _ client' _ e
