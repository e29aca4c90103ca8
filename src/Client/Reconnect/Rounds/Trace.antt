-- ===== src/Client/Reconnect/Rounds/Trace.antt =====
-- The rounds behind a `reconnect` that has succeeded.
use tmi_rs.Prelude.{
  ℕ, zero, suc, ◌-◌, ◌<◌, Option, none, some, map?, Bool-cases, inl, inr, true, ◌≡◌, refl, ap, ◌∙◌,
  arith, Outcome, done, >>=_inv,
}
use tmi_rs.Client.Errors.{
  ConnectError, open_stream, timeout, should_retry, Awaited, value, error, elapsed, Connected, ok,
  failed,
}
use tmi_rs.Client.Handshake.{Client}
use tmi_rs.Client.Reconnect.{
  Backoff, Dialer, Reply, next_delay, may_try, after_handshake, after_open, attempts, reconnect,
}
use tmi_rs.Client.Reconnect.Rounds.{
  Loop, Allows, Fails, refused, rejected, Failing, stop, next, Connects,
}

Allows-zero : (tries : Option ℕ) → may_try tries ≡ true → Allows tries 0
Allows-zero none h = tt
Allows-zero (some zero) h = cc
Allows-zero (some (suc n)) h = omega arith

Allows-suc :
    (tries : Option ℕ) (k : ℕ)
    → may_try tries ≡ true
    → Allows (map? tries (λ n. n - 1)) k
    → Allows tries (suc k)
Allows-suc none k may h = tt
Allows-suc (some zero) k may h = cc
Allows-suc (some (suc n)) k may h = omega arith

module _ {E D T R W S : Type 0} (dialer : Dialer E R W S)
    (handshake : Client R W → Outcome (Client R W × Connected E D T)) (backoff : Backoff) where
  -- Failing rounds, fewer than the tries and the fuel, and one that connects.
  pub record Trace (tries : Option ℕ) (fuel : ℕ) (l : Loop R W S) (s : S) (client : Client R W)
      : Type 0 where
    pub count : ℕ
    pub last : Loop R W S
    pub allows : Allows tries count
    pub enough : count < fuel
    pub failing : Failing dialer handshake backoff last count l
    pub connects : Connects dialer handshake backoff last s client

  abbrev Gave : Reply dialer handshake → S → Client R W → Type 0
  Gave reply s client = reply ≡ done (s, client, ok)

  cons :
      (tries : Option ℕ) (fuel : ℕ) (l m : Loop R W S) (s : S) (client : Client R W)
      → may_try tries ≡ true
      → Fails dialer handshake backoff l m
      → Trace (map? tries (λ n. n - 1)) fuel m s client
      → Trace tries (suc fuel) l s client
  cons tries fuel l m s client may f t = record {
    count = suc t.count;
    last = t.last;
    allows = Allows-suc tries t.count may t.allows;
    enough = omega (arith, t.enough);
    failing = next f t.failing;
    connects = t.connects;
  }

  one :
      (tries : Option ℕ) (fuel : ℕ) (l : Loop R W S) (s : S) (client : Client R W)
      → may_try tries ≡ true
      → Connects dialer handshake backoff l s client
      → Trace tries (suc fuel) l s client
  one tries fuel l s client may c = record {
    count = 0;
    last = l;
    allows = Allows-zero tries may;
    enough = omega arith;
    failing = stop;
    connects = c;
  }

  module _ (fuel : ℕ) (tries : Option ℕ) (may : may_try tries ≡ true)
      (later : (delay : ℕ) (s s' : S) (client client' : Client R W) (cause : ConnectError E D T)
        → Gave
            (attempts dialer handshake fuel backoff (map? tries (λ n. n - 1)) delay s client cause)
            s'
            client'
        → Trace
            (map? tries (λ n. n - 1))
            fuel
            (record { delay = delay; net = s; client = client })
            s'
            client') where
    after_handshake-Trace :
        (l : Loop R W S) (delay : ℕ) (s s' : S) (shaken client' : Client R W) (reader : R)
        (writer : W) (reply : Connected E D T)
        → next_delay backoff l.delay ≡ done delay
        → dialer.dial (dialer.sleep l.net l.delay) ≡ (s, value (reader, writer))
        → handshake (record l.client { reader = reader; writer = writer }) ≡ done (shaken, reply)
        → Gave
            (after_handshake dialer handshake
              (λ s client cause.
                attempts dialer handshake fuel backoff
                  (map? tries (λ n. n - 1))
                  delay
                  s
                  client
                  cause)
              s
              shaken
              reply)
            s'
            client'
        → Trace tries (suc fuel) l s' client'
    unfolding after_handshake
    after_handshake-Trace l delay s s' shaken client' reader writer ok waits dialled shook e =
        one tries fuel l s' client' may (record {
          reader = reader;
          writer = writer;
          later = delay;
          later_lem = waits;
          dialled = let same : s ≡ s' = cc in dialled ∙ ap (λ t. (t, value (reader, writer))) same;
          shaken = let same : shaken ≡ client' = cc in shook ∙ ap (λ c. done (c, ok)) same;
        })
    after_handshake-Trace l delay s s' shaken client' reader writer (failed x) waits dialled shook
          e =
        elim (Bool-cases (should_retry x)) [
          | inl t ↦
              cons tries fuel l (record { delay = delay; net = s; client = shaken }) s' client' may
                (rejected reader writer x waits dialled shook t)
                (later delay s s' shaken client' x (rw t at e))
          | inr t ↦ cc
        ]

    after_open-Trace :
        (l : Loop R W S) (delay : ℕ) (s s' : S) (client' : Client R W) (stream : Awaited E (R × W))
        → next_delay backoff l.delay ≡ done delay
        → dialer.dial (dialer.sleep l.net l.delay) ≡ (s, stream)
        → Gave
            (after_open dialer handshake
              (λ s client cause.
                attempts dialer handshake fuel backoff
                  (map? tries (λ n. n - 1))
                  delay
                  s
                  client
                  cause)
              s
              l.client
              stream)
            s'
            client'
        → Trace tries (suc fuel) l s' client'
    unfolding after_open
    after_open-Trace l delay s s' client' (error x) waits dialled e =
        cons tries fuel l (record { delay = delay; net = s; client = l.client }) s' client' may
          (refused x waits dialled refl) (later delay s s' l.client client' (open_stream x) e)
    after_open-Trace l delay s s' client' elapsed waits dialled e = cc
    after_open-Trace l delay s s' client' (value (reader, writer)) waits dialled e =
        let ((shaken, reply), shook, e') =
          >>=_inv (handshake (record l.client { reader = reader; writer = writer })) _ _ e in
        after_handshake-Trace l delay s s' shaken client' reader writer reply waits dialled shook e'

  attempts-Trace :
      (fuel : ℕ) (tries : Option ℕ) (delay : ℕ) (s s' : S) (client client' : Client R W)
      (cause : ConnectError E D T)
      → Gave (attempts dialer handshake fuel backoff tries delay s client cause) s' client'
      → Trace tries fuel (record { delay = delay; net = s; client = client }) s' client'
  unfolding attempts
  attempts-Trace zero tries delay s s' client client' cause e = cc
  attempts-Trace (suc fuel) tries delay s s' client client' cause e =
      elim (Bool-cases (may_try tries)) [
        | inl may ↦
            let (delay', waits, e') = >>=_inv (next_delay backoff delay) _ _ (rw may at e) in
            after_open-Trace fuel tries may
              (λ d t t' c c' x h. attempts-Trace fuel (map? tries (λ n. n - 1)) d t t' c c' x h)
              (record { delay = delay; net = s; client = client }) delay' _ s' client' _ waits refl
              e'
        | inr may ↦ cc
      ]

  -- A `reconnect` that succeeds has run rounds that fail and are tried again, fewer than may be
  -- tried, and behind them one round whose dial and handshake succeed and leave the client.
  pub reconnect-Trace :
      (fuel : ℕ) (s s' : S) (client client' : Client R W)
      → reconnect dialer handshake fuel backoff s client ≡ done (s', client', ok)
      → Trace backoff.max_tries fuel
          (record { delay = backoff.initial_delay; net = s; client = client })
          s'
          client'
  unfolding reconnect
  reconnect-Trace fuel s s' client client' e =
      attempts-Trace fuel backoff.max_tries backoff.initial_delay s s' client client' timeout e
