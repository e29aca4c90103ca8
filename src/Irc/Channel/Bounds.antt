-- ===== src/Irc/Channel/Bounds.antt =====
-- The spans of the channel and of the params against the character boundaries of the line.
use tmi_rs.Prelude.{
  ℕ, ◌+◌, ◌^◌, ◌<◌, Bool-cases, Option-cases, inl, inr, [], ◌∷◌, Option, none, ◌≡◌, ap, subst,
  arith, length, drop, IfSome, done, >>=_inv, done_inj,
}
use tmi_rs.Str.{Str, codes, find, slice_from, starts_with}
use tmi_rs.Str.Boundary.{
  Boundary, Boundary-ascii, Boundary-length, Boundary-le, slice_from-done, find-behind,
}
use tmi_rs.Irc.Span.{Span}
use tmi_rs.Irc.Span.Inside.{Inside, from-Inside}
use tmi_rs.Irc.Channel.{channel_span, parse, params_span, parse_params}

module _ (src : Str) (short : length src < 2 ^ 32) where
  channel_span-Inside :
      (pos : ℕ)
      → Boundary src pos
      → IfSome (Inside src) (channel_span src pos (find (drop pos src) b' ')).0
  unfolding channel_span
  channel_span-Inside pos h = elim (Option-cases (find (drop pos src) b' ')) [
    | inl miss ↦
        rw miss
          (from-Inside src pos (length src) short (Boundary-le src pos h) h (Boundary-length src))
    | inr (e, hit) ↦
        let (r, here) = find-behind src pos b' ' e hit in
        rw hit (
          from-Inside src pos (pos + e) short (omega arith) h
            (Boundary-ascii src (pos + e) b' ' r (omega arith) here))
  ]

  -- The channel that the parser gives at `pos`.
  pub parse-Inside :
      (pos next : ℕ) (channel : Option Span)
      → parse src pos ≡ done (channel, next)
      → IfSome (Inside src) channel
  unfolding parse
  parse-Inside pos next channel e =
      let (rest, cut, parsed) = >>=_inv (slice_from src pos) _ (channel, next) e in
      elim (Bool-cases (starts_with (codes "#") rest)) [
        | inl hash ↦
            let (tail, again, ended) =
              >>=_inv (slice_from src pos) _ (channel, next) (rw hash at parsed) in
            let (inside, whole) = slice_from-done src pos tail again in
            let same : (channel_span src pos (find tail b' ')).0 ≡ channel = cc in
            subst (IfSome (Inside src)) same (
              subst (λ t. IfSome (Inside src) (channel_span src pos (find t b' ')).0) whole
                (channel_span-Inside pos inside))
        | inr other ↦
            let same : none ≡ channel = ap (λ x. x.0) (done_inj (rw other at parsed)) in
            subst (IfSome (Inside src)) same tt
      ]

  params_span-Inside :
      (pos : ℕ) (rest : Str) → Boundary src pos → IfSome (Inside src) (params_span src pos rest)
  unfolding params_span
  params_span-Inside pos [] h = tt
  params_span-Inside pos (c ∷ rest) h =
      from-Inside src pos (length src) short (Boundary-le src pos h) h (Boundary-length src)

  -- The params that the parser gives at `pos`.
  pub parse_params-Inside :
      (pos : ℕ) (params : Option Span)
      → parse_params src pos ≡ done params
      → IfSome (Inside src) params
  unfolding parse_params
  parse_params-Inside pos params e =
      let (rest, cut, ended) = >>=_inv (slice_from src pos) _ params e in
      let same : params_span src pos rest ≡ params = cc in
      subst (IfSome (Inside src)) same
        (params_span-Inside pos rest (slice_from-done src pos rest cut).0)
