-- ===== src/Irc/Command/Total.antt =====
-- The command parser from one boundary to the next.
use tmi_rs.Prelude.{
  ℕ, ◌+◌, ◌-◌, ◌≤◌, inl, inr, Option, none, some, Option-cases, ◌≡◌, refl, arith, take, drop, done,
}
use tmi_rs.Str.{Str, find}
use tmi_rs.Str.Boundary.{
  IsText, Boundary, Boundary-ascii, Boundary-next, Boundary-length, Boundary-le,
  slice_from-Boundary, slice-Boundary, find-behind,
}
use tmi_rs.Irc.Span as Spans
use tmi_rs.Irc.Command.{RawCommand, classify, command_end, advance, parse}

module _ (src : Str) (text : IsText src) where
  -- Where the command ends, and where the next part begins.
  Ends : ℕ → ℕ × ℕ → Type 0
  Ends pos (end, next) = (pos ≤ end) × Boundary src end × Boundary src next

  command_end-Ends :
      (pos : ℕ) → Boundary src pos → Ends pos (command_end src pos (find (drop pos src) b' '))
  unfolding Ends command_end
  command_end-Ends pos h = elim (Option-cases (find (drop pos src) b' ')) [
    | inl miss ↦ rw miss (Boundary-le src pos h, Boundary-length src, Boundary-length src)
    | inr (e, hit) ↦
        let (r, here) = find-behind src pos b' ' e hit in
        rw hit (
          omega arith,
          Boundary-ascii src (pos + e) b' ' r (omega arith) here,
          Boundary-next src (pos + e) (pos + e + 1) b' ' r text (omega arith) here refl,
        )
  ]

  advance-Boundary :
      (command : Option RawCommand) (pos next : ℕ)
      → Boundary src pos
      → Boundary src next
      → Boundary src (advance command pos next).1
  unfolding advance
  advance-Boundary none pos next h h' = h
  advance-Boundary (some command) pos next h h' = h'

  -- The parser from a boundary to the next.
  pub parse-Boundary :
      (pos : ℕ)
      → Boundary src pos
      → (command : Option RawCommand) × (next : ℕ) × (parse src pos ≡ done (command, next))
        × Boundary src next
  unfolding parse Ends
  parse-Boundary pos h =
      let (end, next) = command_end src pos (find (drop pos src) b' ') in
      let (le, end_inside, next_inside) = command_end-Ends pos h in
      let word = take (end - pos) (drop pos src) in
      let found = advance (classify word (Spans.from pos end)) pos next in
      (
        found.0,
        found.1,
        rw (slice_from-Boundary src pos h, slice-Boundary src pos end le h end_inside) refl,
        advance-Boundary (classify word (Spans.from pos end)) pos next h next_inside,
      )
