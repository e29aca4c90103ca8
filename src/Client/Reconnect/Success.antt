-- ===== src/Client/Reconnect/Success.antt =====
-- What stands behind a `reconnect` that succeeds.
use tmi_rs.Prelude.{
  ℕ, zero, suc, ◌-◌, Option, map?, ◌≡◌, ap, ◌∙◌, Bool-cases, inl, inr, Outcome, done,
}
use tmi_rs.Client.Errors.{
  ConnectError, open_stream, timeout, should_retry, Awaited, value, error, elapsed, Connected, ok,
  failed,
}
use tmi_rs.Client.Handshake.{Client}
use tmi_rs.Client.Handshake.Accepted.{bind-done}
use tmi_rs.Client.Reconnect.{
  Backoff, Dialer, Retry, Reply, next_delay, may_try, after_handshake, after_open, attempts,
  reconnect,
}

module _ {E D T R W S : Type 0} (dialer : Dialer E R W S)
    (handshake : Client R W → Outcome (Client R W × Connected E D T)) where
  -- The client is as a handshake has left it that succeeded.
  abbrev pub IsShaken : Client R W → Type 0
  IsShaken client = (before : Client R W) × (handshake before ≡ done (client, ok))

  abbrev Succeeds : S → Client R W → Reply dialer handshake → Type 0
  Succeeds s client reply = reply ≡ done (s, client, ok)

  abbrev IsSound : Retry dialer handshake → S → Client R W → Type 0
  IsSound retry s' client' =
      (s : S) (client : Client R W) (cause : ConnectError E D T)
      → Succeeds s' client' (retry s client cause)
      → IsShaken client'

  after_handshake-IsShaken :
      (retry : Retry dialer handshake) (s s' : S) (before client client' : Client R W)
      (reply : Connected E D T)
      → IsSound retry s' client'
      → handshake before ≡ done (client, reply)
      → Succeeds s' client' (after_handshake dialer handshake retry s client reply)
      → IsShaken client'
  unfolding after_handshake
  after_handshake-IsShaken retry s s' before client client' ok sound h e =
      let same : client ≡ client' = cc in (before, h ∙ ap (λ c. done (c, ok)) same)
  after_handshake-IsShaken retry s s' before client client' (failed x) sound h e =
      elim (Bool-cases (should_retry x)) [
        | inl t ↦ sound s client x (let e' : retry s client x ≡ done (s', client', ok) = cc in e')
        | inr t ↦ cc
      ]

  after_open-IsShaken :
      (retry : Retry dialer handshake) (s s' : S) (client client' : Client R W)
      (stream : Awaited E (R × W))
      → IsSound retry s' client'
      → Succeeds s' client' (after_open dialer handshake retry s client stream)
      → IsShaken client'
  unfolding after_open
  after_open-IsShaken retry s s' client client' (error x) sound e = sound s client (open_stream x) e
  after_open-IsShaken retry s s' client client' elapsed sound e = cc
  after_open-IsShaken retry s s' client client' (value (reader, writer)) sound e =
      let (r, h, e') =
        bind-done (handshake (record client { reader = reader; writer = writer })) _ _ e in
      after_handshake-IsShaken retry s s' _ r.0 client' r.1 sound h e'

  attempts-IsShaken :
      (fuel : ℕ) (backoff : Backoff) (tries : Option ℕ) (delay : ℕ) (s s' : S)
      (client client' : Client R W) (cause : ConnectError E D T)
      → Succeeds s' client' (attempts dialer handshake fuel backoff tries delay s client cause)
      → IsShaken client'
  unfolding attempts
  attempts-IsShaken zero backoff tries delay s s' client client' cause e = cc
  attempts-IsShaken (suc fuel) backoff tries delay s s' client client' cause e =
      elim (Bool-cases (may_try tries)) [
        | inl t ↦
            let (delay', _, e') = bind-done (next_delay backoff delay) _ _ (rw t at e) in
            after_open-IsShaken _ _ s' client client' _
              (λ s client cause e.
                attempts-IsShaken fuel backoff (map? tries (λ n. n - 1)) delay' s s' client client'
                  cause e)
              e'
        | inr t ↦ cc
      ]

  -- If `reconnect` succeeds, the client is as a handshake has left it that succeeded.
  pub reconnect-IsShaken :
      (fuel : ℕ) (backoff : Backoff) (s s' : S) (client client' : Client R W)
      → reconnect dialer handshake fuel backoff s client ≡ done (s', client', ok)
      → IsShaken client'
  unfolding reconnect
  reconnect-IsShaken fuel backoff s s' client client' e =
      attempts-IsShaken fuel backoff backoff.max_tries backoff.initial_delay s s' client client'
        timeout e
