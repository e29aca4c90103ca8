-- ===== src/Client/Reconnect/Rounds.antt =====
-- client.rs: the rounds of the loop of `Client::reconnect`, as a relation on its variables.
pub mod Progress
pub mod Trace
use tmi_rs.Prelude.{ℕ, zero, suc, ◌<◌, Option, none, some, true, ◌≡◌, Outcome, done}
use tmi_rs.Client.Errors.{ConnectError, should_retry, value, error, Connected, ok, failed}
use tmi_rs.Client.Handshake.{Client}
use tmi_rs.Client.Reconnect.{Backoff, Dialer, next_delay}

-- The variables of the loop that a round changes, but for the count of the tries and the cause.
pub record Loop (R W S : Type 0) : Type 0 where
  pub delay : ℕ
  pub net : S
  pub client : Client R W

-- What is left of the tries is enough for one round more than these.
abbrev pub Allows : Option ℕ → ℕ → Type 0
Allows none k = Unit
Allows (some tries) k = k < tries

module _ {E D T R W S : Type 0} (dialer : Dialer E R W S)
    (handshake : Client R W → Outcome (Client R W × Connected E D T)) (backoff : Backoff) where
  -- A round that ends in `continue`: no stream was opened, or the handshake gave an error that is
  -- tried again.
  pub data Fails (l : Loop R W S) (l' : Loop R W S) : Type 0 where
    refused :
        (e : E)
        → next_delay backoff l.delay ≡ done l'.delay
        → dialer.dial (dialer.sleep l.net l.delay) ≡ (l'.net, error e)
        → l'.client ≡ l.client
        → Fails l l'
    rejected :
        (reader : R) (writer : W) (e : ConnectError E D T)
        → next_delay backoff l.delay ≡ done l'.delay
        → dialer.dial (dialer.sleep l.net l.delay) ≡ (l'.net, value (reader, writer))
        → handshake (record l.client { reader = reader; writer = writer })
          ≡ done (l'.client, failed e)
        → should_retry e ≡ true
        → Fails l l'

  -- As many failing rounds, one after the other.
  pub data Failing (l' : Loop R W S) : ℕ → Loop R W S → Type 0 where
    stop : Failing l' zero l'
    next : {k : ℕ} {l m : Loop R W S} → Fails l m → Failing l' k m → Failing l' (suc k) l

  -- A round that ends in `return Ok(())`.
  pub record Connects (l : Loop R W S) (s : S) (client : Client R W) : Type 0 where
    pub reader : R
    pub writer : W
    pub later : ℕ
    pub later_lem : next_delay backoff l.delay ≡ done later
    pub dialled : dialer.dial (dialer.sleep l.net l.delay) ≡ (s, value (reader, writer))
    pub shaken :
        handshake (record l.client { reader = reader; writer = writer }) ≡ done (client, ok)
