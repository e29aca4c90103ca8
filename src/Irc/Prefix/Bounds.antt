-- ===== src/Irc/Prefix/Bounds.antt =====
-- The spans of the prefix parser against the character boundaries of the line.
use tmi_rs.Prelude.{
  ℕ, ◌+◌, ◌^◌, ◌≤◌, ◌<◌, Bool-cases, inl, inr, [], ◌∷◌, Option, none, some, ◌≡◌, refl, sym, ap,
  subst, ◌∙◌, arith, ◌==◌, ==_iff, length, drop, IfSome, done, >>=_inv, done_inj,
}
use tmi_rs.Str.{Str, codes, slice_from, starts_with}
use tmi_rs.Str.Boundary.{
  IsText, Boundary, Boundary-ascii, Boundary-next, drop-next, slice_from-done, starts_with-drop,
}
use tmi_rs.Irc.Span.{from}
use tmi_rs.Irc.Span.Inside.{Inside, from-Inside}
use tmi_rs.Irc.Prefix.{RawPrefix, Scan, at_sign, step, scan, settle, initial, parse}

-- Each part of a prefix can be cut out.
abbrev pub PrefixInside : Str → RawPrefix → Type 0
PrefixInside src raw =
    IfSome (Inside src) raw.nick × IfSome (Inside src) raw.user × Inside src raw.host

module _ (src : Str) (text : IsText src) (short : length src < 2 ^ 32) where
  -- What the variables of the loop say of the line at `i`.
  abbrev ScanInside : ℕ → Scan → Type 0
  ScanInside i s =
      (s.host_start ≤ i)
      × Boundary src s.host_start
      × IfSome (Inside src) s.nick
      × IfSome (Inside src) s.user
      × IfSome (λ e. (e < i) × Boundary src (e + 1)) s.nick_end

  later_end :
      (i : ℕ) (o : Option ℕ)
      → IfSome (λ e. (e < i) × Boundary src (e + 1)) o
      → IfSome (λ e. (e < i + 1) × Boundary src (e + 1)) o
  later_end i none h = tt
  later_end i (some e) (lt, h) = (omega arith, h)

  at_sign-Inside :
      (start i : ℕ) (o : Option ℕ) (s : Scan)
      → start ≤ i
      → Boundary src start
      → Boundary src i
      → Boundary src (i + 1)
      → IfSome (λ e. (e < i) × Boundary src (e + 1)) o
      → s.nick_end ≡ o
      → ScanInside i s
      → ScanInside (i + 1) (at_sign start i o s)
  unfolding at_sign
  at_sign-Inside start i none s le hs hi hn he same (lt, hh, hnick, huser, hend) =
      (omega arith, hn, from-Inside src start i short le hs hi, huser, later_end i s.nick_end hend)
  at_sign-Inside start i (some e) s le hs hi hn (lt', he) same (lt, hh, hnick, huser, hend) = (
    omega arith,
    hn,
    hnick,
    from-Inside src (e + 1) i short (omega arith) he hi,
    later_end i s.nick_end hend,
  )

  step-Inside :
      (start i c : ℕ) (cs : Str) (s : Scan)
      → start ≤ i
      → Boundary src start
      → drop i src ≡ c ∷ cs
      → ScanInside i s
      → ScanInside (i + 1) (step start i c s)
  unfolding step
  step-Inside start i c cs s le hs here h = elim (Bool-cases (c == b'@')) [
    | inl sign ↦
        let byte : c ≡ b'@' = (==_iff c b'@').0 sign in
        rw sign (
          at_sign-Inside start i s.nick_end s le hs (Boundary-ascii src i c cs (omega arith) here)
            (Boundary-next src i (i + 1) c cs text (omega arith) here refl) h.4 refl h)
    | inr no_sign ↦ elim (Bool-cases (c == b'!')) [
      | inl bang ↦
          let byte : c ≡ b'!' = (==_iff c b'!').0 bang in
          rw (no_sign, bang)
            (
              omega (arith, h.0),
              h.1,
              from-Inside src start i short le hs (Boundary-ascii src i c cs (omega arith) here),
              h.3,
              (omega arith, Boundary-next src i (i + 1) c cs text (omega arith) here refl),
            )
      | inr no_bang ↦
          rw (no_sign, no_bang) (omega (arith, h.0), h.1, h.2, h.3, later_end i s.nick_end h.4)
    ]
  ]

  scan-Inside :
      (start : ℕ) (cs : Str) (i : ℕ) (s : Scan) (raw : RawPrefix)
      → start ≤ i
      → Boundary src start
      → drop i src ≡ cs
      → ScanInside i s
      → (scan start cs i s).0 ≡ some raw
      → PrefixInside src raw
  unfolding scan
  scan-Inside start [] i s raw le hs here h e = cc
  scan-Inside start (c ∷ cs) i s raw le hs here h e = elim (Bool-cases (c == b' ')) [
    | inl space ↦
        let byte : c ≡ b' ' = (==_iff c b' ').0 space in
        let found : some (record { nick = s.nick; user = s.user; host = from s.host_start i })
            ≡ some raw =
          rw space at e in
        let same : record { nick = s.nick; user = s.user; host = from s.host_start i } ≡ raw = cc in
        subst (PrefixInside src) same (
          h.2,
          h.3,
          from-Inside src s.host_start i short h.0 h.1
              (Boundary-ascii src i c cs (omega arith) here),
        )
    | inr other ↦
        scan-Inside start cs (i + 1) (step start i c s) raw (omega arith) hs
          (drop-next src i (i + 1) c cs here refl) (step-Inside start i c cs s le hs here h)
          (rw other at e)
  ]

  settle-scan : (pos : ℕ) (found : Option RawPrefix × ℕ) → (settle pos found).0 ≡ found.0
  unfolding settle
  settle-scan pos (none, i) = refl
  settle-scan pos (some raw, i) = refl

  -- What the parser gives at `pos`.
  pub parse-PrefixInside :
      (pos next : ℕ) (prefix : Option RawPrefix)
      → parse src pos ≡ done (prefix, next)
      → IfSome (PrefixInside src) prefix
  unfolding parse initial
  parse-PrefixInside pos next none e = tt
  parse-PrefixInside pos next (some raw) e =
      let (rest, cut, parsed) = >>=_inv (slice_from src pos) _ (some raw, next) e in
      let (inside, whole) = slice_from-done src pos rest cut in
      elim (Bool-cases (starts_with (codes ":") rest)) [
        | inl colon ↦
            let (r, here) = starts_with-drop src pos b':' (rw whole colon) in
            let start = pos + 1 in
            let behind = Boundary-next src pos start b':' r text (omega arith) here refl in
            let settled : settle pos (scan start (drop start src) start (initial start))
                ≡ (some raw, next) =
              let run : done (settle pos (scan start (drop start src) start (initial start)))
                  ≡ done (some raw, next) =
                rw colon at parsed in
              cc in
            scan-Inside start (drop start src) start (initial start) raw (omega arith) behind refl
              (omega arith, behind, tt, tt, tt)
              (sym (settle-scan pos (scan start (drop start src) start (initial start)))
                ∙ ap (λ x. x.0) settled)
        | inr other ↦
            let bad : none ≡ some raw = ap (λ x. x.0) (done_inj (rw other at parsed)) in cc
      ]
