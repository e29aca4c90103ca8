-- ===== src/Irc/Tags/Bounds.antt =====
-- The positions of the tag parser by bytes against the character boundaries of the line.
use tmi_rs.Prelude.{
  ℕ, ◌+◌, ◌-◌, ◌%◌, ◌^◌, ◌≤◌, ◌<◌, Bool-cases, Option-cases, inl, inr, List, [], ◌∷◌, ◌++◌, Option,
  none, some, ◌≡◌, refl, ap, subst, ◌∙◌, arith, ◌==◌, ==_iff, length, drop, All, IfSome, All-append,
  done, panicked, >>=_inv, done_inj, ltb,
}
use tmi_rs.Str.{Str, codes, slice_from, strip_prefix}
use tmi_rs.Str.Boundary.{
  IsText, Boundary, Boundary-le, Boundary-ascii, Boundary-next, drop-next, slice_from-done,
}
use tmi_rs.Str.Split.Laws.{strip_prefix-some}
use tmi_rs.Irc.Span.Inside.{Inside}
use tmi_rs.Irc.Tags.{TagPair, key, value, push, capacity, State, in_key, in_value, tag_pair}
use tmi_rs.Irc.Tags.Scalar.{at_equals, at_semi, flush, step, loop, parse_stripped, parse}

-- The key and the value of a pair can be cut out.
abbrev pub PairInside : Str → TagPair → Type 0
PairInside src pair = Inside src (key pair) × Inside src (value pair)

push-All :
    (P : TagPair → Type 0) (tags : List TagPair) (pair : TagPair) (out : List TagPair)
    → All P tags
    → P pair
    → push tags pair ≡ done out
    → All P out
unfolding push
push-All P tags pair out hs h e = elim (Bool-cases (ltb (length tags) capacity)) [
  | inl room ↦
      let same : done (tags ++ pair ∷ []) ≡ done out = rw room at e in
      let equal : tags ++ pair ∷ [] ≡ out = cc in
      subst (All P) equal (All-append P tags (pair ∷ []) hs (h, tt))
  | inr full ↦ let bad : panicked ≡ done out = rw full at e in cc
]

-- A line shorter than 2 ^ 16, so that no cast cuts.
module _ (src : Str) (text : IsText src) (short : length src < 2 ^ 16) where
  -- What the state says of the line at `offset`, which counts from behind the `@`.
  abbrev StateInside : ℕ → State → Type 0
  StateInside offset (in_key start) = (start ≤ offset) × Boundary src (start + 1)
  StateInside offset (in_value start end) =
      (start ≤ end)
      × (end < offset)
      × Boundary src (start + 1)
      × Boundary src (end + 1)
      × Boundary src (end + 2)

  tag_pair-Inside :
      (start end offset : ℕ)
      → StateInside offset (in_value start end)
      → Boundary src (offset + 1)
      → PairInside src (tag_pair start end offset)
  unfolding key value
  tag_pair-Inside start end offset (le, lt, hs, he, hv) ho =
      let size = Boundary-le src (offset + 1) ho in
      let key_start : (start % 2 ^ 32 + 1) % 2 ^ 32 ≡ start + 1 = omega arith in
      let key_end : (start + 1 + (end - start) % 2 ^ 16) % 2 ^ 32 ≡ end + 1 = omega arith in
      let value_start : (end + 1 + 1) % 2 ^ 32 ≡ end + 2 = omega arith in
      let value_end : (end + 2 + (offset - (end + 1)) % 2 ^ 16) % 2 ^ 32 ≡ offset + 1 =
        omega arith in
      rw (key_start, key_end, value_start, value_end) ((omega arith, hs, he), (omega arith, hv, ho))

  flush-Inside :
      (offset : ℕ) (state : State) (tags out : List TagPair)
      → StateInside offset state
      → Boundary src (offset + 1)
      → All (PairInside src) tags
      → flush offset state tags ≡ done out
      → All (PairInside src) out
  unfolding flush
  flush-Inside offset (in_key start) tags out hs ho ht e =
      let same : tags ≡ out = cc in subst (All (PairInside src)) same ht
  flush-Inside offset (in_value start end) tags out hs ho ht e =
      push-All (PairInside src) tags (tag_pair start end offset) out ht
        (tag_pair-Inside start end offset hs ho) e

  later : (offset : ℕ) (state : State) → StateInside offset state → StateInside (offset + 1) state
  later offset (in_key start) (le, hs) = (omega arith, hs)
  later offset (in_value start end) (le, lt, hs, he, hv) = (le, omega arith, hs, he, hv)

  at_equals-Inside :
      (offset : ℕ) (state : State)
      → StateInside offset state
      → Boundary src (offset + 1)
      → Boundary src (offset + 2)
      → StateInside (offset + 1) (at_equals offset state)
  unfolding at_equals
  at_equals-Inside offset (in_key start) (le, hs) ho hv = (le, omega arith, hs, ho, hv)
  at_equals-Inside offset (in_value start end) h ho hv = later offset (in_value start end) h

  at_semi-Inside :
      (offset : ℕ) (state : State)
      → StateInside offset state
      → Boundary src (offset + 2)
      → StateInside (offset + 1) (at_semi offset state)
  unfolding at_semi
  at_semi-Inside offset (in_key start) h hv = later offset (in_key start) h
  at_semi-Inside offset (in_value start end) h hv =
      (omega arith, subst (Boundary src) (omega arith) hv)

  -- What the loop keeps.
  abbrev Kept : ℕ → State × List TagPair → Type 0
  Kept offset (state, tags) = StateInside offset state × All (PairInside src) tags

  step-Inside :
      (c offset : ℕ) (cs : Str) (state : State) (tags : List TagPair) (out : State × List TagPair)
      → drop (offset + 1) src ≡ c ∷ cs
      → Kept offset (state, tags)
      → step c offset state tags ≡ done out
      → Kept (offset + 1) out
  unfolding step
  step-Inside c offset cs state tags out here (hs, ht) e = elim (Bool-cases (c == b'=')) [
    | inl equals ↦
        let byte : c ≡ b'=' = (==_iff c b'=').0 equals in
        let same : done (at_equals offset state, tags) ≡ done out = rw equals at e in
        let stepped : (at_equals offset state, tags) ≡ out = cc in
        subst (Kept (offset + 1)) stepped (
          at_equals-Inside offset state hs (Boundary-ascii src (offset + 1) c cs (omega arith) here)
              (Boundary-next src (offset + 1) (offset + 2) c cs text (omega arith) here
                (omega arith)),
          ht,
        )
    | inr no_equals ↦ elim (Bool-cases (c == b';')) [
      | inl semi ↦
          let byte : c ≡ b';' = (==_iff c b';').0 semi in
          let (tags', flushed, ended) =
            >>=_inv (flush offset state tags) _ out (rw (no_equals, semi) at e) in
          let stepped : (at_semi offset state, tags') ≡ out = cc in
          subst (Kept (offset + 1)) stepped (
            at_semi-Inside offset state hs (
                Boundary-next src (offset + 1) (offset + 2) c cs text (omega arith) here
                  (omega arith)),
            flush-Inside offset state tags tags' hs
                (Boundary-ascii src (offset + 1) c cs (omega arith) here) ht flushed,
          )
      | inr no_semi ↦
          let same : done (state, tags) ≡ done out = rw (no_equals, no_semi) at e in
          let stepped : (state, tags) ≡ out = cc in
          subst (Kept (offset + 1)) stepped (later offset state hs, ht)
    ]
  ]

  loop-Inside :
      (cs : Str) (offset : ℕ) (state : State) (tags : List TagPair) (out : ℕ × List TagPair)
      → drop (offset + 1) src ≡ cs
      → Kept offset (state, tags)
      → loop cs offset state tags ≡ done out
      → All (PairInside src) out.1
  unfolding loop
  loop-Inside [] offset state tags out here (hs, ht) e =
      let ended : tags ≡ out.1 = cc in subst (All (PairInside src)) ended ht
  loop-Inside (c ∷ cs) offset state tags out here (hs, ht) e = elim (Bool-cases (c == b' ')) [
    | inl space ↦
        let byte : c ≡ b' ' = (==_iff c b' ').0 space in
        let (tags', flushed, ended) = >>=_inv (flush offset state tags) _ out (rw space at e) in
        let same : tags' ≡ out.1 = cc in
        subst (All (PairInside src)) same (
          flush-Inside offset state tags tags' hs
            (Boundary-ascii src (offset + 1) c cs (omega arith) here) ht flushed)
    | inr other ↦
        let (next, stepped, rest) = >>=_inv (step c offset state tags) _ out (rw other at e) in
        loop-Inside cs (offset + 1) next.0 next.1 out
          (drop-next src (offset + 1) (offset + 1 + 1) c cs here refl)
          (step-Inside c offset cs state tags next here (hs, ht) stepped) rest
  ]

  parse_stripped-PairInside :
      (rest : Str) (ts : List TagPair) (pos : ℕ)
      → src ≡ rest
      → parse_stripped 0 (strip_prefix (codes "@") rest) ≡ done (some ts, pos)
      → All (PairInside src) ts
  unfolding parse_stripped
  parse_stripped-PairInside rest ts pos whole e =
      elim (Option-cases (strip_prefix (codes "@") rest)) [
        | inl miss ↦ let bad : none ≡ some ts = ap (λ x. x.0) (done_inj (rw miss at e)) in cc
        | inr (stripped, hit) ↦
            let ((offset, found), looped, ended) =
              >>=_inv (loop stripped 0 (in_key 0) []) _ (some ts, pos) (rw hit at e) in
            let same : found ≡ ts = cc in
            let line : src ≡ b'@' ∷ stripped =
              whole ∙ strip_prefix-some (codes "@") rest stripped hit in
            subst (All (PairInside src)) same (
              loop-Inside stripped 0 (in_key 0) [] (offset, found) (ap (drop 1) line)
                (
                  (omega arith, Boundary-next src 0 1 b'@' stripped text (omega arith) line refl),
                  tt,
                )
                looped)
      ]

  -- The tags that the parser gives at the start of the line.
  pub parse-PairInside :
      (tags : Option (List TagPair)) (pos : ℕ)
      → parse src 0 ≡ done (tags, pos)
      → IfSome (All (PairInside src)) tags
  unfolding parse
  parse-PairInside none pos e = tt
  parse-PairInside (some ts) pos e =
      let (rest, cut, parsed) = >>=_inv (slice_from src 0) _ (some ts, pos) e in
      parse_stripped-PairInside rest ts pos (slice_from-done src 0 rest cut).1 parsed
