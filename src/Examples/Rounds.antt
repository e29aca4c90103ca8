-- ===== src/Examples/Rounds.antt =====
-- Instances of the theorems on the rounds of `reconnect`.
use tmi_rs.Prelude.{
  Outcome, ℕ, ◌*◌, ◌==◌, Bool, true, false, if◌then◌else◌, List, [], ◌∷◌, ◌++◌, ◌≡◌, ◌↔◌, refl,
  subst, arith, length, done, Returns,
}
use tmi_rs.Str.{Str, codes}
use tmi_rs.Str.Boundary.{ascii-IsText}
use tmi_rs.Irc.Wide.{IsVector}
use tmi_rs.Irc.Wide.X86.{sse2, vector-IsVector}
use tmi_rs.Client.Errors.{Awaited, value, error, Connected, ok}
use tmi_rs.Client.Handshake.{Client, handshake}
use tmi_rs.Irc.Tags.Scalar as Scalars
use tmi_rs.Client.Handshake.Complete.{Shakes, left_by, handshake-ok_iff}
use tmi_rs.Client.Handshake.Returns.{IsShort, ShortLines, parser_at}
use tmi_rs.Client.Reconnect.{Dialer, default_backoff, second, reconnect}
use tmi_rs.Client.Reconnect.Returns.{reconnect-Returns}
use tmi_rs.Client.Reconnect.Rounds.{Loop, refused, stop, next}
use tmi_rs.Client.Reconnect.Rounds.Progress.{reconnect-ok}
use tmi_rs.Client.Reconnect.Rounds.Trace.{Trace, reconnect-Trace}
use tmi_rs.Examples.Clients.{
  anonymous, accepting, answering, login, accepting_login, second_login, default-Fits,
}

-- A network that refuses the first two connections.
abbrev dial_after_two : List ℕ → List ℕ × Awaited ℕ (ℕ × ℕ)
dial_after_two (first ∷ later ∷ third ∷ log) = (first ∷ later ∷ third ∷ log, value (0, 0))
dial_after_two log = (log, error 111)

abbrev flaky : Dialer ℕ ℕ ℕ (List ℕ)
flaky = record { sleep = λ log delay. log ++ delay ∷ []; dial = dial_after_two }

abbrev at : ℕ → List ℕ → Loop ℕ ℕ (List ℕ)
at delay log = record { delay = delay; net = log; client = anonymous }

reconnect-ok_example :
    reconnect flaky login 3 default_backoff [] anonymous
    ≡ done (1 * second ∷ 3 * second ∷ 9 * second ∷ [], record anonymous { reader = 2 }, ok)
reconnect-ok_example =
    reconnect-ok flaky login default_backoff 2 3 (at (9 * second) (1 * second ∷ 3 * second ∷ [])) []
      (1 * second ∷ 3 * second ∷ 9 * second ∷ []) anonymous (record anonymous { reader = 2 })
      (omega arith) (omega arith)
      (next {m = at (3 * second) (1 * second ∷ [])} (refused 111 refl refl refl)
        (next (refused 111 refl refl refl) stop))
      (record {
        reader = 0;
        writer = 0;
        later = 12 * second;
        later_lem = refl;
        dialled = refl;
        shaken = accepting_login;
      })

reconnect-Trace_example :
    Trace answering login default_backoff default_backoff.max_tries 9
      (record { delay = default_backoff.initial_delay; net = []; client = anonymous })
      (1000000000 ∷ [])
      (record anonymous { reader = 2 })
reconnect-Trace_example =
    reconnect-Trace answering login default_backoff 9 [] (1000000000 ∷ []) anonymous
      (record anonymous { reader = 2 }) second_login

acknowledged-IsShort : IsShort (codes ":t CAP * ACK :x")
acknowledged-IsShort = record {
  text = ascii-IsText (codes ":t CAP * ACK :x") (omega arith);
  short = omega arith;
  few = omega arith;
}

welcome-IsShort : IsShort (codes ":t 001 a :hi")
welcome-IsShort = record {
  text = ascii-IsText (codes ":t 001 a :hi") (omega arith);
  short = omega arith;
  few = omega arith;
}

either-IsShort :
    (b : Bool) (line : Str)
    → (if b then codes ":t CAP * ACK :x" else codes ":t 001 a :hi") ≡ line
    → IsShort line
either-IsShort true line e = subst IsShort e acknowledged-IsShort
either-IsShort false line e = subst IsShort e welcome-IsShort

accepting-ShortLines : ShortLines accepting
unfolding accepting
accepting-ShortLines reader line e =
    let same : (if reader == 0 then codes ":t CAP * ACK :x" else codes ":t 001 a :hi") ≡ line =
      cc in
    either-IsShort (reader == 0) line same

sse2-IsVector : IsVector sse2
sse2-IsVector = vector-IsVector 16 (omega arith) (omega arith)

reconnect-Returns_example :
    Returns {A = List ℕ × Client ℕ ℕ × Connected ℕ ℕ ℕ}
      (reconnect flaky (handshake (parser_at sse2 length) accepting) 9 default_backoff [] anonymous)
reconnect-Returns_example =
    reconnect-Returns sse2 sse2-IsVector length accepting flaky 8 default_backoff [] anonymous
      accepting-ShortLines refl default-Fits

handshake-ok_iff_example :
    ◌≡◌ {A = Outcome (Client ℕ ℕ × Connected ℕ ℕ ℕ)}
      (handshake Scalars.parse accepting anonymous)
      (done (record anonymous { reader = 2 }, ok))
    ↔ (Shakes Scalars.parse accepting anonymous
        × (record anonymous { reader = 2 } ≡ left_by Scalars.parse accepting anonymous))
handshake-ok_iff_example =
    handshake-ok_iff Scalars.parse accepting anonymous (record anonymous { reader = 2 })
