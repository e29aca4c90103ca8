-- ===== src/Irc/Prefix/Total.antt =====
-- The prefix parser from one boundary to the next.
use tmi_rs.Prelude.{
  ℕ, ◌+◌, Bool-cases, inl, inr, [], ◌∷◌, Option, none, ◌≡◌, refl, arith, ◌==◌, ==_iff, drop, done,
}
use tmi_rs.Str.{Str, codes, starts_with}
use tmi_rs.Str.Boundary.{IsText, Boundary, Boundary-next, drop-next, slice_from-Boundary}
use tmi_rs.Irc.Prefix.{RawPrefix, Scan, step, scan, settle, initial, parse}

module _ (src : Str) (text : IsText src) where
  settle-scan :
      (start : ℕ) (cs : Str) (i pos : ℕ) (s : Scan)
      → Boundary src pos
      → drop i src ≡ cs
      → Boundary src (settle pos (scan start cs i s)).1
  unfolding scan settle
  settle-scan start [] i pos s h here = h
  settle-scan start (c ∷ cs) i pos s h here = elim (Bool-cases (c == b' ')) [
    | inl space ↦
        let byte : c ≡ b' ' = (==_iff c b' ').0 space in
        rw space (Boundary-next src i (i + 1) c cs text (omega arith) here refl)
    | inr other ↦ rw other (
        settle-scan start cs (i + 1) pos (step start i c s) h
          (drop-next src i (i + 1) c cs here refl))
  ]

  -- The parser from a boundary to the next.
  pub parse-Boundary :
      (pos : ℕ)
      → Boundary src pos
      → (prefix : Option RawPrefix) × (next : ℕ) × (parse src pos ≡ done (prefix, next))
        × Boundary src next
  unfolding parse
  parse-Boundary pos h = elim (Bool-cases (starts_with (codes ":") (drop pos src))) [
    | inl colon ↦
        let start = pos + 1 in
        let found = settle pos (scan start (drop start src) start (initial start)) in
        (
          found.0,
          found.1,
          rw (slice_from-Boundary src pos h, colon) refl,
          settle-scan start (drop start src) start pos (initial start) h refl,
        )
    | inr other ↦ (none, pos, rw (slice_from-Boundary src pos h, other) refl, h)
  ]
