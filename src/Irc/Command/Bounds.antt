-- ===== src/Irc/Command/Bounds.antt =====
-- The span of an unknown command against the character boundaries of the line.
use tmi_rs.Prelude.{
  ℕ, ◌+◌, ◌^◌, ◌≤◌, ◌<◌, Option-cases, inl, inr, [], ◌∷◌, Option, none, some, ◌≡◌, subst, ◌∙◌,
  arith, length, drop, All, IfSome, done, >>=_inv, done_inj,
}
use tmi_rs.Str.{Str, lookup, find, slice, slice_from}
use tmi_rs.Str.Laws.{lookup-eq-some}
use tmi_rs.Str.Boundary.{
  IsText, Boundary, Boundary-ascii, Boundary-length, Boundary-le, slice_from-done, find-behind,
}
use tmi_rs.Irc.Span.{Span, from}
use tmi_rs.Irc.Span.Inside.{Inside, from-Inside}
use tmi_rs.Irc.Command.{
  RawCommand, arms, fallback, match_arm, classify, command_end, advance, parse,
}

-- What a command keeps of the line can be cut out.
abbrev pub CommandInside : Str → RawCommand → Type 0
CommandInside src (RawCommand.other span) = Inside src span
CommandInside src _ = Unit

arms_keep_nothing : (src : Str) → All (λ arm. CommandInside src arm.1) arms
arms_keep_nothing src = (
  tt,
  (
    tt,
    (
      tt,
      (
        tt,
        (
          tt,
          (
            tt,
            (
              tt,
              (
                tt,
                (
                  tt,
                  (
                    tt,
                    (
                      tt,
                      (
                        tt,
                        (tt, (tt, (tt, (tt, (tt, (tt, (tt, (tt, (tt, (tt, (tt, (tt, tt)))))))))))),
                      ),
                    ),
                  ),
                ),
              ),
            ),
          ),
        ),
      ),
    ),
  ),
)

classify-CommandInside :
    (src s : Str) (span : Span) (raw : RawCommand)
    → Inside src span
    → classify s span ≡ some raw
    → CommandInside src raw
unfolding classify match_arm fallback
classify-CommandInside src s span raw h e = elim (Option-cases (lookup s arms)) [
  | inl miss ↦ unknown s (rw miss at e)
  | inr (cmd, hit) ↦
      lookup-eq-some (λ _ c. CommandInside src c) s arms (arms_keep_nothing src) (hit ∙ rw hit at e)
]
  where
    unknown : (s : Str) → fallback s span ≡ some raw → CommandInside src raw
    unknown [] e = cc
    unknown (c ∷ s) e =
        let same : RawCommand.other span ≡ raw = cc in subst (CommandInside src) same h

module _ (src : Str) (text : IsText src) (short : length src < 2 ^ 32) where
  command_end-Boundary :
      (pos : ℕ)
      → Boundary src pos
      → (pos ≤ (command_end src pos (find (drop pos src) b' ')).0)
        × Boundary src (command_end src pos (find (drop pos src) b' ')).0
  unfolding command_end
  command_end-Boundary pos h = elim (Option-cases (find (drop pos src) b' ')) [
    | inl miss ↦ rw miss (Boundary-le src pos h, Boundary-length src)
    | inr (e, hit) ↦
        let (r, here) = find-behind src pos b' ' e hit in
        rw hit (omega arith, Boundary-ascii src (pos + e) b' ' r (omega arith) here)
  ]

  advance-some :
      (o : Option RawCommand) (pos next p : ℕ) (raw : RawCommand)
      → advance o pos next ≡ (some raw, p)
      → o ≡ some raw
  unfolding advance
  advance-some none pos next p raw e = cc
  advance-some (some cmd) pos next p raw e = cc

  -- What the parser gives at `pos`.
  pub parse-CommandInside :
      (pos next : ℕ) (command : Option RawCommand)
      → parse src pos ≡ done (command, next)
      → IfSome (CommandInside src) command
  unfolding parse
  parse-CommandInside pos next none e = tt
  parse-CommandInside pos next (some raw) e =
      let (rest, cut, parsed) = >>=_inv (slice_from src pos) _ (some raw, next) e in
      let (inside, whole) = slice_from-done src pos rest cut in
      let end : Str → ℕ = λ t. (command_end src pos (find t b' ')).0 in
      let (le, end_inside) =
        subst (λ t. (pos ≤ end t) × Boundary src (end t)) whole (command_end-Boundary pos inside) in
      let (word, sliced, ended) = >>=_inv (slice src pos (end rest)) _ (some raw, next) parsed in
      classify-CommandInside src word (from pos (end rest)) raw
        (from-Inside src pos (end rest) short le inside end_inside)
        (advance-some _ _ _ _ raw (done_inj ended))
