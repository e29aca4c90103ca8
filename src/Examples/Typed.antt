-- ===== src/Examples/Typed.antt =====
-- Instances of the theorems on the typed messages, and on the texts that they are made of.
use tmi_rs.Prelude.{◌^◌, true, false, Option, some, ◌≡◌, ◌↔◌, arith, Returns}
use tmi_rs.Prelude.Int.{ℤ}
use tmi_rs.Str.{Str, codes}
use tmi_rs.Str.Boundary.{ascii-IsText}
use tmi_rs.Str.Numbers.Laws.{Reads, unsigned_digits}
use tmi_rs.Irc.Wide.{IsVector}
use tmi_rs.Irc.Wide.X86.{sse2, vector-IsVector}
use tmi_rs.Irc.Simd
use tmi_rs.Msg.Fields.{parse_message_text, parse_duration}
use tmi_rs.Msg.Fields.Laws.{parse_message_text_iff, parse_duration_iff, action}
use tmi_rs.Msg.Typed
use tmi_rs.Msg.Typed.Total.{parse-Returns}

sse2-IsVector : IsVector sse2
sse2-IsVector = vector-IsVector 16 (omega arith) (omega arith)

-- chrono reads every number of milliseconds here.
abbrev millis : ℤ → Option ℤ
millis z = some z

abbrev line : Str
line = codes "@a=1 PING :x"

parse-Returns_example : Returns (Typed.parse millis (Simd.parse sse2 3) line)
parse-Returns_example =
    parse-Returns sse2 sse2-IsVector millis 3 line (ascii-IsText line (omega arith)) (omega arith)
      (omega arith)

parse_message_text_example :
    ((parse_message_text (codes "hi") ≡ (codes "hi", true)) ↔ (codes "hi" ≡ action (codes "hi")))
    × ((parse_message_text (codes "hi") ≡ (codes "hi", false)) → codes "hi" ≡ codes "hi")
parse_message_text_example = parse_message_text_iff (codes "hi") (codes "hi")

parse_duration_example :
    (parse_duration (codes "+600") ≡ some 600) ↔ Reads (2 ^ 64) (unsigned_digits (codes "+600")) 600
parse_duration_example = parse_duration_iff (codes "+600") 600
