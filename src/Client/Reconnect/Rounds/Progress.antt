-- ===== src/Client/Reconnect/Rounds/Progress.antt =====
-- Rounds that fail and one that connects, as `reconnect` runs them.
use tmi_rs.Prelude.{
  ℕ, zero, suc, ◌-◌, ◌<◌, Option, none, some, map?, true, ◌≡◌, refl, ◌∙◌, arith, Outcome, done,
}
use tmi_rs.Client.Errors.{ConnectError, open_stream, timeout, Connected, ok}
use tmi_rs.Client.Handshake.{Client}
use tmi_rs.Client.Reconnect.{
  Backoff, Dialer, may_try, after_handshake, after_open, attempts, reconnect,
}
use tmi_rs.Client.Reconnect.Rounds.{
  Loop, Allows, Fails, refused, rejected, Failing, stop, next, Connects,
}

may_try-Allows : (tries : Option ℕ) (k : ℕ) → Allows tries k → may_try tries ≡ true
may_try-Allows none k h = refl
may_try-Allows (some zero) k h = elim h [ ]
may_try-Allows (some (suc n)) k h = refl

Allows-next : (tries : Option ℕ) (k : ℕ) → Allows tries (suc k) → Allows (map? tries (λ n. n - 1)) k
Allows-next none k h = tt
Allows-next (some n) k h = omega arith

module _ {E D T R W S : Type 0} (dialer : Dialer E R W S)
    (handshake : Client R W → Outcome (Client R W × Connected E D T)) (backoff : Backoff) where
  -- A failing round is run, and the loop goes on behind it with some cause.
  attempts-Fails :
      (fuel : ℕ) (tries : Option ℕ) (l l' : Loop R W S) (cause : ConnectError E D T)
      → may_try tries ≡ true
      → Fails dialer handshake backoff l l'
      → (cause' : ConnectError E D T) × (attempts dialer handshake
            (suc fuel)
            backoff
            tries
            l.delay
            l.net
            l.client
            cause
          ≡ attempts dialer handshake fuel backoff
              (map? tries (λ n. n - 1))
              l'.delay
              l'.net
              l'.client
              cause')
  unfolding attempts after_open after_handshake
  attempts-Fails fuel tries l l' cause may (refused e waits dialled same) =
      (open_stream e, rw (may, waits, dialled, same) refl)
  attempts-Fails fuel tries l l' cause may (rejected reader writer e waits dialled shaken again) =
      (e, rw (may, waits, dialled, shaken, again) refl)

  attempts-Connects :
      (fuel : ℕ) (tries : Option ℕ) (l : Loop R W S) (s : S) (client : Client R W)
      (cause : ConnectError E D T)
      → may_try tries ≡ true
      → Connects dialer handshake backoff l s client
      → attempts dialer handshake (suc fuel) backoff tries l.delay l.net l.client cause
        ≡ done (s, client, ok)
  unfolding attempts after_open after_handshake
  attempts-Connects fuel tries l s client cause may c =
      rw (may, c.later_lem, c.dialled, c.shaken) refl

  attempts-ok :
      (k fuel : ℕ) (tries : Option ℕ) (l l' : Loop R W S) (s : S) (client : Client R W)
      (cause : ConnectError E D T)
      → k < fuel
      → Allows tries k
      → Failing dialer handshake backoff l' k l
      → Connects dialer handshake backoff l' s client
      → attempts dialer handshake fuel backoff tries l.delay l.net l.client cause
        ≡ done (s, client, ok)
  attempts-ok k zero tries l l' s client cause lt allows fails c = absurd (omega arith)
  attempts-ok zero (suc fuel) tries l l' s client cause lt allows stop c =
      attempts-Connects fuel tries l s client cause (may_try-Allows tries 0 allows) c
  attempts-ok (suc k) (suc fuel) tries l l' s client cause lt allows (next {m} f fails) c =
      let (cause', step) =
        attempts-Fails fuel tries l m cause (may_try-Allows tries (suc k) allows) f in
      step
      ∙ attempts-ok k fuel (map? tries (λ n. n - 1)) m l' s client cause' (omega arith)
          (Allows-next tries k allows) fails c

  -- After any number of rounds that fail and are tried again, fewer than may be tried, a round whose
  -- dial and handshake succeed makes `reconnect` succeed, with the client that this handshake has
  -- left; as much fuel as there are rounds is enough.
  pub reconnect-ok :
      (k fuel : ℕ) (l : Loop R W S) (s₀ s : S) (client₀ client : Client R W)
      → k < fuel
      → Allows backoff.max_tries k
      → Failing dialer handshake backoff l k
          (record { delay = backoff.initial_delay; net = s₀; client = client₀ })
      → Connects dialer handshake backoff l s client
      → reconnect dialer handshake fuel backoff s₀ client₀ ≡ done (s, client, ok)
  unfolding reconnect
  reconnect-ok k fuel l s₀ s client₀ client lt allows fails c =
      attempts-ok k fuel backoff.max_tries _ l s client timeout lt allows fails c
