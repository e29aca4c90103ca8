-- ===== src/Irc/Span/Laws.antt =====
-- A span over the middle of a text gives that part back, if its end fits 32 bits.
use tmi_rs.Prelude.{ℕ, ◌+◌, ◌^◌, ◌<◌, ◌++◌, ◌≡◌, arith, length, done}
use tmi_rs.Str.{Str, StartsChar}
use tmi_rs.Str.Laws.{slice-append}
use tmi_rs.Irc.Span.{from, index}

pub from-lt : (a b : ℕ) → a < 2 ^ 32 → b < 2 ^ 32 → from a b ≡ record { start = a; end = b }
unfolding from
from-lt a b ha hb = ground arith

pub index-from :
    (p s t : Str)
    → StartsChar (s ++ t)
    → StartsChar t
    → length p + length s < 2 ^ 32
    → index (p ++ (s ++ t)) (from (length p) (length p + length s)) ≡ done s
unfolding index
index-from p s t hs ht h =
    rw (from-lt (length p) (length p + length s) (omega arith) h) (slice-append p s t hs ht)

-- The same for a text that is given otherwise.
pub index_at :
    (src p s t : Str) (a b : ℕ)
    → src ≡ p ++ (s ++ t)
    → a ≡ length p
    → b ≡ a + length s
    → StartsChar (s ++ t)
    → StartsChar t
    → b < 2 ^ 32
    → index src (from a b) ≡ done s
index_at src p s t a b e ea eb hs ht h =
    let eb' : b ≡ length p + length s = omega arith in
    rw (e, ea, eb') (index-from p s t hs ht (omega arith))
