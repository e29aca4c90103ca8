-- ===== src/Client/Reconnect.antt =====
-- client.rs: `Backoff` and the loop of `Client::reconnect`. Durations are in nanoseconds. The
-- timer and the opening of a stream are tokio's: `S` stands for what they stand on.
pub mod Delays
pub mod Attempts
pub mod Success
pub mod Rounds
pub mod Returns
use tmi_rs.Prelude.{
  ℕ, zero, suc, ◌-◌, ◌*◌, ◌^◌, Bool, true, false, Option, none, some, ltb, if◌then◌else◌, min, map?,
  Outcome, done, panicked, spinning, ◌>>=◌,
}
use tmi_rs.Client.Errors.{
  ConnectError, open_stream, timeout, should_retry, Awaited, value, error, elapsed, Connected, ok,
  failed,
}
use tmi_rs.Client.Handshake.{Client}

pub record Backoff : Type 0 where
  pub max_tries : Option ℕ
  pub initial_delay : ℕ
  pub delay_multiplier : ℕ
  pub max_delay : ℕ

abbrev pub second : ℕ
second = 1000000000

-- `impl Default for Backoff`
abbrev pub default_backoff : Backoff
default_backoff = record {
  max_tries = some 8;
  initial_delay = 1 * second;
  delay_multiplier = 3;
  max_delay = 12 * second;
}

-- `Duration * u32`, which panics where the seconds do not fit in a `u64`.
abbrev pub times : ℕ → ℕ → Outcome ℕ
times delay k = if ltb (delay * k) (2 ^ 64 * second) then done (delay * k) else panicked

-- `cmp::min(backoff.max_delay, delay * backoff.delay_multiplier)`
abbrev pub next_delay : Backoff → ℕ → Outcome ℕ
next_delay backoff delay = do
  longer ← times delay backoff.delay_multiplier
  done (min backoff.max_delay longer)

-- `matches!(tries, None | Some(1..))`
abbrev pub may_try : Option ℕ → Bool
may_try none = true
may_try (some zero) = false
may_try (some (suc n)) = true

-- The calls that the loop makes outside the library: `tokio::time::sleep`, and `conn::open` with
-- its timeout, with the two halves of the stream.
pub record Dialer (E R W S : Type 0) : Type 0 where
  pub sleep : S → ℕ → S
  pub dial : S → S × Awaited E (R × W)

module _ {E D T R W S : Type 0} (dialer : Dialer E R W S)
    (handshake : Client R W → Outcome (Client R W × Connected E D T)) where
  -- What the loop and the function give.
  abbrev pub Reply : Type 0
  Reply = Outcome (S × Client R W × Connected E D T)

  -- `continue`, with the new cause.
  abbrev pub Retry : Type 0
  Retry = S → Client R W → ConnectError E D T → Reply

  -- What the loop does with the handshake's reply.
  pub after_handshake : Retry → S → Client R W → Connected E D T → Reply
  after_handshake retry s client ok = done (s, client, ok)
  after_handshake retry s client (failed e) =
      if should_retry e then retry s client e else done (s, client, failed e)

  -- What the loop does with the stream.
  pub after_open : Retry → S → Client R W → Awaited E (R × W) → Reply
  unfolding after_handshake
  after_open retry s client (error e) = retry s client (open_stream e)
  after_open retry s client elapsed = done (s, client, failed timeout)
  after_open retry s client (value (reader, writer)) = do
    (client, reply) ← handshake (record client { reader = reader; writer = writer })
    after_handshake retry s client reply

  -- The `while` loop, and the error behind it.
  unfoldable pub attempts : ℕ → Backoff → Option ℕ → ℕ → S → Client R W → ConnectError E D T → Reply
  unfolding after_open
  attempts zero backoff tries delay s client cause = spinning
  attempts (suc fuel) backoff tries delay s client cause =
      let round = next_delay backoff delay >>= λ delay'.
      let (s', stream) = dialer.dial (dialer.sleep s delay) in
      after_open
        (λ s client cause. attempts fuel backoff (map? tries (λ n. n - 1)) delay' s client cause) s'
        client stream in
      if may_try tries then round else done (s, client, failed cause)

  -- `Client::reconnect`, with `fuel` rounds of the loop.
  unfoldable pub reconnect : ℕ → Backoff → S → Client R W → Reply
  reconnect fuel backoff s client =
      attempts fuel backoff backoff.max_tries backoff.initial_delay s client timeout
