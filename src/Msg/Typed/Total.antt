-- ===== src/Msg/Typed/Total.antt =====
-- From a text to a typed message.
use tmi_rs.Prelude.{ℕ, ◌≤◌, ◌<◌, ◌^◌, Option, none, some, ◌≡◌, refl, length, done, Returns}
use tmi_rs.Prelude.Int.{ℤ}
use tmi_rs.Str.{Str}
use tmi_rs.Str.Boundary.{IsText}
use tmi_rs.Irc.Tags.{capacity}
use tmi_rs.Irc.Tags.Total.{count}
use tmi_rs.Irc.Wide.{Vector, IsVector}
use tmi_rs.Irc.Simd
use tmi_rs.Irc.Message as Lines
use tmi_rs.Irc.Message.{IrcMessage}
use tmi_rs.Irc.Message.Total as LineTotal
use tmi_rs.Irc.Message.Bounds.Parsed.{parse-WellFormed}
use tmi_rs.Msg.Typed.{parse}
use tmi_rs.Msg.Typed.Safety.{from_irc-Returns}

module _ (v : Vector) (law : IsVector v) {Time : Type 0} (timestamp_millis : ℤ → Option Time) where
  -- A text shorter than 2 ^ 16 bytes with at most 128 equals signs is parsed to a typed message or
  -- to none: nothing panics and every loop ends, whatever the text says.
  pub parse-Returns :
      (addr : ℕ) (src : Str)
      → IsText src
      → length src < 2 ^ 16
      → count b'=' src ≤ capacity
      → Returns (parse timestamp_millis (Simd.parse v addr) src)
  unfolding parse
  parse-Returns addr src text short few =
      let (found, e) = LineTotal.parse-Returns v law addr src text few in typed found e
    where
      typed :
          (found : Option IrcMessage)
          → Lines.parse (Simd.parse v addr) src ≡ done found
          → Returns (parse timestamp_millis (Simd.parse v addr) src)
      typed none e = rw e (none, refl)
      typed (some m) e =
          rw e
            (from_irc-Returns m (parse-WellFormed src text short v law addr m e) timestamp_millis)
