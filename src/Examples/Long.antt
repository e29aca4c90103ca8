-- ===== src/Examples/Long.antt =====
-- An instance of the theorem on values that do not fit 16 bits.
use tmi_rs.Prelude.{
  ℕ, zero, suc, ◌+◌, List, [], ◌∷◌, ◌≡◌, some, refl, arith, map, length, length-append, done, ◌≢◌,
}
use tmi_rs.Str.{Str, codes, Lacks}
use tmi_rs.Irc.Wide.{IsVector}
use tmi_rs.Irc.Wide.X86.{sse2, vector-IsVector}
use tmi_rs.Irc.Simd
use tmi_rs.Irc.Tags.{TagPair, collect}
use tmi_rs.Irc.Tags.RoundTrip.{line, render}
use tmi_rs.Irc.Tags.Cut.{cut, parse-cut}
use tmi_rs.Irc.Escape.Tagged.{IsAscii}

sse2-IsVector : IsVector sse2
sse2-IsVector = vector-IsVector 16 (omega arith) (omega arith)

-- As many times the letter a.
repeated : ℕ → Str
repeated zero = []
repeated (suc n) = b'a' ∷ repeated n

Lacks-repeated : (c n : ℕ) → b'a' ≢ c → Lacks c (repeated n)
unfolding repeated
Lacks-repeated c zero h = tt
Lacks-repeated c (suc n) h = (h, Lacks-repeated c n h)

repeated-IsAscii : (n : ℕ) → IsAscii (repeated n)
unfolding repeated
repeated-IsAscii zero = tt
repeated-IsAscii (suc n) = (omega arith, repeated-IsAscii n)

length-repeated : (n : ℕ) → length (repeated n) ≡ n
unfolding repeated
length-repeated zero = refl
length-repeated (suc n) = omega (arith, length-repeated n)

-- One tag, whose value has a byte more than fits.
long_tag : List (Str × Str)
long_tag = (codes "k", repeated 65537) ∷ []

length-line : length (line long_tag (codes "PING")) ≡ 65545
unfolding long_tag
length-line =
    omega (arith, length-append (repeated 65537) (b' ' ∷ codes "PING"), length-repeated 65537)

parse-cut_example :
    (tags : List TagPair) × (Simd.parse sse2 5 (line long_tag (codes "PING")) 0
      ≡ done (some tags, length (render long_tag) + 2))
    × (collect (line long_tag (codes "PING")) tags ≡ done (map cut long_tag))
unfolding long_tag
parse-cut_example =
    parse-cut sse2 sse2-IsVector 5 long_tag (codes "PING")
      (
        (
          (omega arith, omega arith),
          (Lacks-repeated b';' 65537 (λ e. cc), Lacks-repeated b' ' 65537 (λ e. cc)),
        ),
        tt,
      )
      ((refl, omega arith, repeated-IsAscii 65537), tt) (omega arith) (omega (arith, length-line))
