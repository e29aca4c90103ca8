-- ===== src/Client/Write/Answer.antt =====
-- The pings and pongs that the client writes, against the parser of typed messages.
use tmi_rs.Prelude.{
  ℕ, ◌^◌, ◌<◌, [], ◌∷◌, Option, none, some, IfSome, ◌≡◌, ◌≢◌, refl, arith, length, done,
}
use tmi_rs.Prelude.Int.{ℤ}
use tmi_rs.Str.{Str, codes, StartsChar}
use tmi_rs.Irc.Wide.{Vector, IsVector}
use tmi_rs.Irc.Simd
use tmi_rs.Irc.Channel.Tail.{IsTail}
use tmi_rs.Irc.Message.Whole.{Whole, IsWhole, line}
use tmi_rs.Msg.Line.Server.{colon}
use tmi_rs.Msg.Line.Anywhere.{pings, answers, parse-MeansAnywhere}
use tmi_rs.Msg.Ping.{Ping}
use tmi_rs.Msg.Typed.{Message, parse}
use tmi_rs.Client.Write.{ping, pong, body}

cons_ne_nil : (c : ℕ) (s : Str) → c ∷ s ≢ []
cons_ne_nil c s e = cc

-- The parts of a ping and of a pong.
abbrev asked : Option Str → Whole
asked nonce = record {
  tags = none;
  prefix = none;
  command = codes "PING";
  channel = none;
  params = colon nonce;
}

abbrev answered : Option Str → Whole
answered nonce = record (asked nonce) { command = codes "PONG" }

colon_ends : (nonce : Option Str) → IsTail none (colon nonce)
colon_ends none = tt
colon_ends (some s) = (cons_ne_nil b':' s, refl, omega arith)

IsWhole-asked :
    (nonce : Option Str)
    → IfSome StartsChar nonce
    → length (line (asked nonce)) < 2 ^ 32
    → IsWhole (asked nonce)
IsWhole-asked nonce starts fits = record {
  pairs = tt;
  few = omega arith;
  source = tt;
  word = omega arith;
  word_ne_nil = cons_ne_nil b'P' _;
  word_starts = refl;
  behind = omega arith;
  not_names = λ e. cc;
  not_end_of_names = λ e. cc;
  ends = colon_ends nonce;
  fits = fits;
}

IsWhole-answered :
    (nonce : Option Str)
    → IfSome StartsChar nonce
    → length (line (answered nonce)) < 2 ^ 32
    → IsWhole (answered nonce)
IsWhole-answered nonce starts fits = record {
  pairs = tt;
  few = omega arith;
  source = tt;
  word = omega arith;
  word_ne_nil = cons_ne_nil b'P' _;
  word_starts = refl;
  behind = omega arith;
  not_names = λ e. cc;
  not_end_of_names = λ e. cc;
  ends = colon_ends nonce;
  fits = fits;
}

module _ (v : Vector) (law : IsVector v) (addr : ℕ) {Time : Type 0}
    (timestamp_millis : ℤ → Option Time) where
  parse-ping :
      (nonce : Str)
      → StartsChar nonce
      → length (body (ping nonce)) < 2 ^ 32
      → parse timestamp_millis (Simd.parse v addr) (body (ping nonce))
        ≡ done (some (Message.ping (record { nonce = some nonce })))
  unfolding body
  parse-ping nonce starts fits =
      parse-MeansAnywhere timestamp_millis (asked (some nonce)) v law addr
        (Message.ping (record { nonce = some nonce })) (IsWhole-asked (some nonce) starts fits)
        (pings (some nonce) starts refl refl)

  -- A pong that the client writes is read back as a pong with the same nonce or with none, if the
  -- nonce begins no character in its middle and the line is shorter than 2 ^ 32 bytes.
  pub parse-pong :
      (nonce : Option Str)
      → IfSome StartsChar nonce
      → length (body (pong nonce)) < 2 ^ 32
      → parse timestamp_millis (Simd.parse v addr) (body (pong nonce))
        ≡ done (some (Message.pong (record { nonce = nonce })))
  unfolding body
  parse-pong none starts fits =
      parse-MeansAnywhere timestamp_millis (answered none) v law addr
        (Message.pong (record { nonce = none })) (IsWhole-answered none starts fits)
        (answers none starts refl refl)
  parse-pong (some nonce) starts fits =
      parse-MeansAnywhere timestamp_millis (answered (some nonce)) v law addr
        (Message.pong (record { nonce = some nonce })) (IsWhole-answered (some nonce) starts fits)
        (answers (some nonce) starts refl refl)

  -- A ping that is written is read as a ping, and the pong that is written for that ping's nonce
  -- is read as a pong with the nonce of the ping, by every vector that keeps the contract. The
  -- nonce begins no character in its middle and the lines are shorter than 2 ^ 32 bytes.
  pub parse-answer :
      (nonce : Str)
      → StartsChar nonce
      → length (body (ping nonce)) < 2 ^ 32
      → (received : Ping) × (parse timestamp_millis (Simd.parse v addr) (body (ping nonce))
          ≡ done (some (Message.ping received)))
        × (parse timestamp_millis (Simd.parse v addr) (body (pong received.nonce))
            ≡ done (some (Message.pong (record { nonce = some nonce }))))
  unfolding body
  parse-answer nonce starts fits = (
    record { nonce = some nonce },
    parse-ping nonce starts fits,
    parse-pong (some nonce) starts fits,
  )
