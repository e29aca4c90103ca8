-- ===== src/Client/Reconnect/Returns.antt =====
-- `Client::reconnect` over the handshake with the vectorised tag parser.
use tmi_rs.Prelude.{
  ℕ, zero, suc, ◌-◌, ◌*◌, ◌^◌, ◌<◌, ◌≤◌, min, ltb-true, some, ◌≡◌, refl, subst, sym, Bool-cases,
  inl, inr, arith, Outcome, done, Returns, >>=-Returns,
}
use tmi_rs.Str.{Str}
use tmi_rs.Irc.Wide.{Vector, IsVector}
use tmi_rs.Client.Errors.{
  ConnectError, timeout, open_stream, should_retry, Awaited, value, error, elapsed, Connected, ok,
  failed,
}
use tmi_rs.Client.Handshake.{Client, Connection, handshake}
use tmi_rs.Client.Handshake.Returns.{ShortLines, parser_at, handshake-Returns}
use tmi_rs.Client.Reconnect.{
  Backoff, Dialer, Retry, next_delay, after_handshake, after_open, attempts, reconnect, second,
}
use tmi_rs.Client.Reconnect.Delays.{Fits}

-- A wait that can be multiplied.
abbrev CanGrow : Backoff → ℕ → Type 0
CanGrow backoff delay = delay * backoff.delay_multiplier < 2 ^ 64 * second

-- The next wait can be computed, and can be multiplied again.
next_delay-CanGrow :
    (backoff : Backoff) (delay : ℕ)
    → Fits backoff
    → CanGrow backoff delay
    → (later : ℕ) × (next_delay backoff delay ≡ done later) × CanGrow backoff later
next_delay-CanGrow backoff delay fits h =
    let longer = delay * backoff.delay_multiplier in
    let bounded : min backoff.max_delay longer * backoff.delay_multiplier
        ≤ backoff.max_delay * backoff.delay_multiplier =
      grind arith in
    (
      min backoff.max_delay longer,
      rw (ltb-true longer (2 ^ 64 * second) h) refl,
      omega (arith, bounded, fits.max_fits),
    )

module _ {E D T R W S : Type 0} (dialer : Dialer E R W S)
    (shake : Client R W → Outcome (Client R W × Connected E D T))
    (returns : (client : Client R W) → Returns (shake client)) where
  after_handshake-Returns :
      (retry : Retry dialer shake) (s : S) (client : Client R W) (reply : Connected E D T)
      → ((s : S) (client : Client R W) (cause : ConnectError E D T)
          → Returns (retry s client cause))
      → Returns (after_handshake dialer shake retry s client reply)
  unfolding after_handshake
  after_handshake-Returns retry s client ok h = (_, refl)
  after_handshake-Returns retry s client (failed e) h = elim (Bool-cases (should_retry e)) [
    | inl t ↦ rw t (h s client e)
    | inr t ↦ rw t ((s, client, failed e), refl)
  ]

  after_open-Returns :
      (retry : Retry dialer shake) (s : S) (client : Client R W) (stream : Awaited E (R × W))
      → ((s : S) (client : Client R W) (cause : ConnectError E D T)
          → Returns (retry s client cause))
      → Returns (after_open dialer shake retry s client stream)
  unfolding after_open
  after_open-Returns retry s client (error e) h = h s client (open_stream e)
  after_open-Returns retry s client elapsed h = (_, refl)
  after_open-Returns retry s client (value (reader, writer)) h =
      >>=-Returns (shake (record client { reader = reader; writer = writer })) _ (returns _)
        λ r _. after_handshake-Returns retry s r.0 r.1 h

  attempts-Returns :
      (n fuel : ℕ) (backoff : Backoff) (delay : ℕ) (s : S) (client : Client R W)
      (cause : ConnectError E D T)
      → n < fuel
      → Fits backoff
      → CanGrow backoff delay
      → Returns (attempts dialer shake fuel backoff (some n) delay s client cause)
  unfolding attempts
  attempts-Returns n zero backoff delay s client cause lt fits grows = absurd (omega arith)
  attempts-Returns zero (suc fuel) backoff delay s client cause lt fits grows = (_, refl)
  attempts-Returns (suc n) (suc fuel) backoff delay s client cause lt fits grows =
      let (later, e, grows') = next_delay-CanGrow backoff delay fits grows in
      rw e (
        after_open-Returns _ _ client _ λ s client cause.
          attempts-Returns (suc n - 1) fuel backoff later s client cause (omega arith) fits grows')

  bounded-Returns :
      (tries : ℕ) (backoff : Backoff) (s : S) (client : Client R W)
      → backoff.max_tries ≡ some tries
      → Fits backoff
      → Returns (reconnect dialer shake (suc tries) backoff s client)
  unfolding reconnect
  bounded-Returns tries backoff s client bound fits =
      subst
        (λ t.
          Returns
            (attempts dialer shake (suc tries) backoff t backoff.initial_delay s client timeout))
        (sym bound)
        (attempts-Returns tries (suc tries) backoff backoff.initial_delay s client timeout
          (omega arith) fits fits.initial_fits)

module _ {E D T R W S : Type 0} (v : Vector) (law : IsVector v) (addr : Str → ℕ)
    (net : Connection E R W) (dialer : Dialer E R W S) where
  -- With a bound on the tries, `reconnect` over the handshake returns after one round more than
  -- there are tries at most: nothing panics, whatever the network does, if its lines are within the
  -- bounds of the parser and no wait times the multiplier overflows.
  pub reconnect-Returns :
      (tries : ℕ) (backoff : Backoff) (s : S) (client : Client R W)
      → ShortLines net
      → backoff.max_tries ≡ some tries
      → Fits backoff
      → Returns (
          reconnect {D = D} {T = T} dialer
            (handshake (parser_at v addr) net)
            (suc tries)
            backoff
            s
            client)
  reconnect-Returns tries backoff s client lines bound fits =
      bounded-Returns dialer (handshake (parser_at v addr) net)
        (handshake-Returns v law addr net lines) tries backoff s client bound fits
