-- ===== src/Irc/Span/Inside.antt =====
-- Spans that can be cut out of a text.
use tmi_rs.Prelude.{ℕ, ◌-◌, ◌%◌, ◌^◌, ◌≤◌, ◌<◌, ◌≡◌, sym, subst, arith, length, take, drop, done}
use tmi_rs.Str.{Str}
use tmi_rs.Str.Boundary.{
  Boundary, Boundary-le, slice-Boundary, IsText, IsText-drop, IsText-take, slice-done-cut,
}
use tmi_rs.Irc.Span.{Span, from, index}

-- The ends are boundaries of the text, in order.
abbrev pub Inside : Str → Span → Type 0
Inside src span = (span.start ≤ span.end) × Boundary src span.start × Boundary src span.end

pub index-Inside :
    (src : Str) (span : Span) → Inside src span → (s : Str) × (index src span ≡ done s)
unfolding index
index-Inside src span (le, hs, he) = (
  take (span.end - span.start) (drop span.start src),
  slice-Boundary src span.start span.end le hs he,
)

-- Below 2 ^ 32 the cast keeps the ends.
pub from-Inside :
    (src : Str) (a b : ℕ)
    → length src < 2 ^ 32
    → a ≤ b
    → Boundary src a
    → Boundary src b
    → Inside src (from a b)
unfolding from
from-Inside src a b lt le ha hb =
    let small_a : a % 2 ^ 32 ≡ a = omega (arith, Boundary-le src a ha) in
    let small_b : b % 2 ^ 32 ≡ b = omega (arith, Boundary-le src b hb) in
    rw (small_a, small_b) (le, ha, hb)

pub index-IsText :
    (src : Str) (span : Span) (s : Str) → IsText src → index src span ≡ done s → IsText s
unfolding index
index-IsText src span s h e =
    subst IsText (sym (slice-done-cut src span.start span.end s e))
      (IsText-take (span.end - span.start) (drop span.start src) (IsText-drop span.start src h))
