-- ===== src/Client/Reconnect/Attempts.antt =====
-- The end of the loop of `reconnect`.
use tmi_rs.Prelude.{
  ℕ, zero, suc, ◌-◌, ◌<◌, some, ◌≡◌, ◌≢◌, refl, subst, ltb, ◌*◌, ◌^◌, arith, Bool-cases, inl, inr,
  Outcome, done, panicked, spinning, ◌>>=◌, sym,
}
use tmi_rs.Client.Errors.{
  ConnectError, timeout, open_stream, should_retry, Awaited, value, error, elapsed, Connected, ok,
  failed,
}
use tmi_rs.Client.Handshake.{Client}
use tmi_rs.Client.Reconnect.{
  Backoff, Dialer, Retry, next_delay, after_handshake, after_open, attempts, reconnect, second,
}

-- The call ends.
abbrev pub Ends {ℓ} : {A : Type ℓ} → Outcome A → Type ℓ
Ends m = m ≢ spinning

bind-Ends {ℓ κ} :
    {A : Type ℓ} {B : Type κ} (m : Outcome A) (f : A → Outcome B)
    → Ends m
    → ((a : A) → Ends (f a))
    → Ends (m >>= f)
bind-Ends (done a) f hm hf = hf a
bind-Ends panicked f hm hf = λ e. cc
bind-Ends spinning f hm hf = absurd (hm refl)

done-Ends {ℓ} : {A : Type ℓ} (a : A) → Ends (done a)
done-Ends a e = cc

next_delay-Ends : (backoff : Backoff) (delay : ℕ) → Ends (next_delay backoff delay)
next_delay-Ends backoff delay =
    elim (Bool-cases (ltb (delay * backoff.delay_multiplier) (2 ^ 64 * second))) [
      | inl t ↦ rw t (done-Ends _)
      | inr t ↦ rw t (λ e. cc)
    ]

module _ {E D T R W S : Type 0} (dialer : Dialer E R W S)
    (handshake : Client R W → Outcome (Client R W × Connected E D T))
    (ends : (client : Client R W) → Ends (handshake client)) where
  after_handshake-Ends :
      (retry : Retry dialer handshake) (s : S) (client : Client R W) (reply : Connected E D T)
      → ((s : S) (client : Client R W) (cause : ConnectError E D T) → Ends (retry s client cause))
      → Ends (after_handshake dialer handshake retry s client reply)
  unfolding after_handshake
  after_handshake-Ends retry s client ok h = done-Ends _
  after_handshake-Ends retry s client (failed e) h = elim (Bool-cases (should_retry e)) [
    | inl t ↦ rw t (h s client e)
    | inr t ↦ rw t (done-Ends _)
  ]

  after_open-Ends :
      (retry : Retry dialer handshake) (s : S) (client : Client R W) (stream : Awaited E (R × W))
      → ((s : S) (client : Client R W) (cause : ConnectError E D T) → Ends (retry s client cause))
      → Ends (after_open dialer handshake retry s client stream)
  unfolding after_open
  after_open-Ends retry s client (error e) h = h s client (open_stream e)
  after_open-Ends retry s client elapsed h = done-Ends _
  after_open-Ends retry s client (value (reader, writer)) h =
      bind-Ends (handshake (record client { reader = reader; writer = writer })) _ (ends _)
        λ r. after_handshake-Ends retry s r.0 r.1 h

  attempts-Ends :
      (n fuel : ℕ) (backoff : Backoff) (delay : ℕ) (s : S) (client : Client R W)
      (cause : ConnectError E D T)
      → n < fuel
      → Ends (attempts dialer handshake fuel backoff (some n) delay s client cause)
  unfolding attempts
  attempts-Ends n zero backoff delay s client cause lt = absurd (omega arith)
  attempts-Ends zero (suc fuel) backoff delay s client cause lt = done-Ends _
  attempts-Ends (suc n) (suc fuel) backoff delay s client cause lt =
      bind-Ends (next_delay backoff delay) _ (next_delay-Ends backoff delay) λ delay'.
        after_open-Ends _ _ client _ λ s client cause.
          attempts-Ends (suc n - 1) fuel backoff delay' s client cause (omega arith)

  -- With a bound on the tries, the loop ends after one round more than there are tries, whatever
  -- the network does, if every handshake ends.
  pub reconnect-Ends :
      (tries : ℕ) (backoff : Backoff) (s : S) (client : Client R W)
      → backoff.max_tries ≡ some tries
      → Ends (reconnect dialer handshake (suc tries) backoff s client)
  unfolding reconnect
  reconnect-Ends tries backoff s client bound =
      subst
        (λ t.
          Ends (
            attempts dialer handshake (suc tries) backoff t backoff.initial_delay s client timeout))
        (sym bound)
        (attempts-Ends tries (suc tries) backoff backoff.initial_delay s client timeout
          (omega arith))
