-- ===== src/Client/Reconnect/Delays.antt =====
-- How long `reconnect` waits before each try.
use tmi_rs.Prelude.{
  ℕ, zero, suc, ◌-◌, ◌*◌, ◌^◌, ◌<◌, ◌≤◌, min, List, [], ◌∷◌, ◌++◌, append_assoc, append-nil, some,
  ltb-true, ◌≡◌, refl, ap, arith, ◌∙◌, sym, inl, inr, ◌⊎◌, Outcome, done,
}
use native.Mathlib.Nat.{pow-zero, pow-suc, mul_assoc}
use tmi_rs.Client.Errors.{ConnectError, timeout, open_stream, error, Connected, failed}
use tmi_rs.Client.Handshake.{Client}
use tmi_rs.Client.Reconnect.{Backoff, Dialer, second, next_delay, after_open, attempts, reconnect}

-- A network that refuses every connection, with the waits as a log.
abbrev pub refusing : {E R W : Type 0} → E → Dialer E R W (List ℕ)
refusing e = record { sleep = λ log delay. log ++ delay ∷ []; dial = λ log. (log, error e) }

-- The wait before try number `i`: the first is not bounded by `max_delay`.
abbrev pub delay_at : Backoff → ℕ → ℕ
delay_at backoff zero = backoff.initial_delay
delay_at backoff (suc i) =
    min backoff.max_delay (backoff.initial_delay * backoff.delay_multiplier ^ suc i)

-- The waits before `n` tries, from number `i` on.
abbrev pub delays : Backoff → ℕ → ℕ → List ℕ
delays backoff i zero = []
delays backoff i (suc n) = delay_at backoff i ∷ delays backoff (suc i) n

-- No multiplication of a wait overflows.
pub record Fits (backoff : Backoff) : Type 0 where
  pub initial_fits : backoff.initial_delay * backoff.delay_multiplier < 2 ^ 64 * second
  pub max_fits : backoff.max_delay * backoff.delay_multiplier < 2 ^ 64 * second

ℕ_le_cases : (a b : ℕ) → (a ≤ b) ⊎ (b ≤ a)
ℕ_le_cases a b = ground arith

pow_one : (m : ℕ) → m ^ 1 ≡ m
pow_one m = rw (pow-suc m 0, pow-zero m) (omega arith)

min-min_times : (a b m : ℕ) → min a (min a b * m) ≡ min a (b * m)
min-min_times a b zero = omega arith
min-min_times a b (suc m) = elim (ℕ_le_cases a b) [
  | inl le ↦
      let first : min a b ≡ a = omega arith in
      let a_grows : a ≤ a * suc m = grind arith in
      let b_grows : b ≤ b * suc m = grind arith in rw first (omega (arith, a_grows, b_grows, le))
  | inr le ↦ let first : min a b ≡ b = omega arith in rw first refl
]

next_delay-delay_at :
    (backoff : Backoff) (i : ℕ)
    → Fits backoff
    → next_delay backoff (delay_at backoff i) ≡ done (delay_at backoff (suc i))
next_delay-delay_at backoff zero fits =
    rw
      (ltb-true (backoff.initial_delay * backoff.delay_multiplier) (2 ^ 64 * second)
        fits.initial_fits)
      (ap (λ d. done (min backoff.max_delay d))
        (ap (λ k. backoff.initial_delay * k) (sym (pow_one backoff.delay_multiplier))))
next_delay-delay_at backoff (suc i) fits =
    let wait = backoff.initial_delay * backoff.delay_multiplier ^ suc i in
    let bounded : min backoff.max_delay wait * backoff.delay_multiplier
        ≤ backoff.max_delay * backoff.delay_multiplier =
      grind arith in
    let room : min backoff.max_delay wait * backoff.delay_multiplier < 2 ^ 64 * second =
      omega (arith, bounded, fits.max_fits) in
    rw (ltb-true (min backoff.max_delay wait * backoff.delay_multiplier) (2 ^ 64 * second) room) (
      ap (λ d. done d)
        (min-min_times backoff.max_delay wait backoff.delay_multiplier
          ∙ ap (λ d. min backoff.max_delay d)
              (mul_assoc backoff.initial_delay (backoff.delay_multiplier ^ suc i)
                  backoff.delay_multiplier
                ∙ ap (λ k. backoff.initial_delay * k)
                    (sym (pow-suc backoff.delay_multiplier (suc i))))))

module _ {E D T R W : Type 0}
    (handshake : Client R W → Outcome (Client R W × Connected E D T)) where
  attempts-refusing :
      (n i fuel : ℕ) (backoff : Backoff) (log : List ℕ) (client : Client R W) (e : E)
      (cause : ConnectError E D T)
      → Fits backoff
      → attempts
          (refusing e)
          handshake
          (suc fuel)
          backoff
          (some (suc n))
          (delay_at backoff i)
          log
          client
          cause
        ≡ attempts
            (refusing e)
            handshake
            fuel
            backoff
            (some n)
            (delay_at backoff (suc i))
            (log ++ delay_at backoff i ∷ [])
            client
            (open_stream e)
  unfolding attempts after_open
  attempts-refusing n i fuel backoff log client e cause fits =
      let left : suc n - 1 ≡ n = omega arith in rw (next_delay-delay_at backoff i fits, left) refl

  attempts-delays :
      (n i fuel : ℕ) (backoff : Backoff) (log : List ℕ) (client : Client R W) (e : E)
      → n < fuel
      → Fits backoff
      → attempts
          (refusing e)
          handshake
          fuel
          backoff
          (some n)
          (delay_at backoff i)
          log
          client
          (open_stream e)
        ≡ done (log ++ delays backoff i n, client, failed (open_stream e))
  attempts-delays n i zero backoff log client e lt fits = absurd (omega arith)
  attempts-delays zero i (suc fuel) backoff log client e lt fits =
      unfold attempts in rw (append-nil log) refl
  attempts-delays (suc n) i (suc fuel) backoff log client e lt fits =
      attempts-refusing n i fuel backoff log client e (open_stream e) fits
      ∙ attempts-delays n (suc i) fuel backoff (log ++ delay_at backoff i ∷ []) client e
          (omega arith) fits
      ∙ ap (λ l. done (l, client, failed (open_stream e)))
          (append_assoc log (delay_at backoff i ∷ []) (delays backoff (suc i) n))

  -- Where no connection can be opened, the client waits as often as it may try, at first for the
  -- initial delay and before try `i` for the initial delay times the multiplier to the power of
  -- `i`, but no longer than the maximum, and then gives the error of the last try. There is at
  -- least one try, and no wait times the multiplier overflows.
  pub reconnect-delays :
      (n : ℕ) (backoff : Backoff) (log : List ℕ) (client : Client R W) (e : E)
      → backoff.max_tries ≡ some (suc n)
      → Fits backoff
      → reconnect (refusing e) handshake (suc (suc n)) backoff log client
        ≡ done (log ++ delays backoff 0 (suc n), client, failed (open_stream e))
  unfolding reconnect
  reconnect-delays n backoff log client e bound fits =
      ap
        (λ t.
          attempts (refusing e) handshake (suc (suc n)) backoff t backoff.initial_delay log client
            timeout)
        bound
      ∙ attempts-refusing n 0 (suc n) backoff log client e timeout fits
      ∙ attempts-delays n 1 (suc n) backoff (log ++ delay_at backoff 0 ∷ []) client e (omega arith)
          fits
      ∙ ap (λ l. done (l, client, failed (open_stream e)))
          (append_assoc log (delay_at backoff 0 ∷ []) (delays backoff 1 n))
