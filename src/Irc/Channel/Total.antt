-- ===== src/Irc/Channel/Total.antt =====
-- The parsers of the channel and of the params from one boundary to the next.
use tmi_rs.Prelude.{
  ℕ, ◌+◌, Bool-cases, inl, inr, Option, none, Option-cases, ◌≡◌, refl, arith, drop, done, Returns,
}
use tmi_rs.Str.{Str, codes, find, starts_with}
use tmi_rs.Str.Boundary.{
  IsText, Boundary, Boundary-next, Boundary-length, slice_from-Boundary, find-behind,
}
use tmi_rs.Irc.Span.{Span}
use tmi_rs.Irc.Channel.{channel_span, parse, params_span, parse_params}

module _ (src : Str) (text : IsText src) where
  channel_span-Boundary :
      (pos : ℕ) → Boundary src (channel_span src pos (find (drop pos src) b' ')).1
  unfolding channel_span
  channel_span-Boundary pos = elim (Option-cases (find (drop pos src) b' ')) [
    | inl miss ↦ rw miss (Boundary-length src)
    | inr (e, hit) ↦
        let (r, here) = find-behind src pos b' ' e hit in
        rw hit (Boundary-next src (pos + e) (pos + e + 1) b' ' r text (omega arith) here refl)
  ]

  -- The parser of the channel from a boundary to the next.
  pub parse-Boundary :
      (pos : ℕ)
      → Boundary src pos
      → (channel : Option Span) × (next : ℕ) × (parse src pos ≡ done (channel, next))
        × Boundary src next
  unfolding parse
  parse-Boundary pos h = elim (Bool-cases (starts_with (codes "#") (drop pos src))) [
    | inl hash ↦
        let found = channel_span src pos (find (drop pos src) b' ') in
        (found.0, found.1, rw (slice_from-Boundary src pos h, hash) refl, channel_span-Boundary pos)
    | inr other ↦ (none, pos, rw (slice_from-Boundary src pos h, other) refl, h)
  ]

pub parse_params-Boundary :
    (src : Str) (pos : ℕ) → Boundary src pos → Returns (parse_params src pos)
unfolding parse_params
parse_params-Boundary src pos h =
    (params_span src pos (drop pos src), rw (slice_from-Boundary src pos h) refl)
