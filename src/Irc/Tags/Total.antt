-- ===== src/Irc/Tags/Total.antt =====
-- The end of the tag parser by bytes: where it stops, and the room that it needs.
use tmi_rs.Prelude.{
  ℕ, suc, ◌+◌, ◌≤◌, ◌<◌, Bool-cases, Option-cases, inl, inr, List, [], ◌∷◌, ◌++◌, none, some, ◌≡◌,
  refl, ap, arith, ◌==◌, if◌then◌else◌, length, length-append, done, ltb-true, true, false,
  some_inj,
}
use tmi_rs.Str.{Str, codes, find, slice_from, strip_prefix, is_char_boundary}
use tmi_rs.Str.Boundary.{IsText, Boundary, Boundary-next, find-drop}
use tmi_rs.Irc.Tags.{TagPair, push, capacity, State, in_key, in_value, tag_pair}
use tmi_rs.Irc.Tags.Scalar.{at_equals, at_semi, flush, step, loop, parse_stripped, parse}

-- How often a byte stands in a text.
abbrev pub count : ℕ → Str → ℕ
count b [] = 0
count b (c ∷ s) = if c == b then suc (count b s) else count b s

-- A pair that has begun.
abbrev pending : State → ℕ
pending (in_key start) = 0
pending (in_value start end) = 1

push-room :
    (tags : List TagPair) (pair : TagPair)
    → length tags < capacity
    → push tags pair ≡ done (tags ++ pair ∷ [])
unfolding push
push-room tags pair lt = rw (ltb-true (length tags) capacity lt) refl

flush-room :
    (offset : ℕ) (state : State) (tags : List TagPair)
    → length tags + pending state ≤ capacity
    → (out : List TagPair) × (flush offset state tags ≡ done out)
      × (length out ≡ length tags + pending state)
unfolding flush
flush-room offset (in_key start) tags le = (tags, refl, omega arith)
flush-room offset (in_value start end) tags le = (
  tags ++ tag_pair start end offset ∷ [],
  push-room tags (tag_pair start end offset) (omega arith),
  omega (arith, length-append tags (tag_pair start end offset ∷ [])),
)

pending-at_equals : (offset : ℕ) (state : State) → pending (at_equals offset state) ≤ 1
unfolding at_equals
pending-at_equals offset (in_key start) = omega arith
pending-at_equals offset (in_value start end) = omega arith

pending-at_semi : (offset : ℕ) (state : State) → pending (at_semi offset state) ≡ 0
unfolding at_semi
pending-at_semi offset (in_key start) = refl
pending-at_semi offset (in_value start end) = refl

pending-le : (state : State) → pending state ≤ 1
pending-le (in_key start) = omega arith
pending-le (in_value start end) = omega arith

-- What a round has and keeps.
abbrev Room : ℕ → ℕ → ℕ → State → List TagPair → Type 0
Room c offset rest state tags =
    (state' : State) × (tags' : List TagPair) × (step c offset state tags ≡ done (state', tags'))
    × (length tags' + pending state' + rest ≤ capacity)

step-Room_semi :
    (c offset rest : ℕ) (state : State) (tags : List TagPair)
    → (c == b'=') ≡ false
    → (c == b';') ≡ true
    → length tags + pending state + rest ≤ capacity
    → Room c offset rest state tags
unfolding step
step-Room_semi c offset rest state tags no_equals semi room =
    let (out, flushed, size) = flush-room offset state tags (omega arith) in
    (
      at_semi offset state,
      out,
      rw (no_equals, semi, flushed) refl,
      omega (arith, size, pending-at_semi offset state),
    )

-- With room for a pair at every equals sign that is left, a round returns and keeps the room.
step-Room :
    (c offset rest : ℕ) (state : State) (tags : List TagPair)
    → length tags + pending state + (if c == b'=' then suc rest else rest) ≤ capacity
    → Room c offset rest state tags
unfolding step
step-Room c offset rest state tags le = elim (Bool-cases (c == b'=')) [
  | inl equals ↦
      let room : length tags + pending state + suc rest ≤ capacity = rw equals at le in
      (at_equals offset state, tags, rw equals refl, omega (arith, pending-at_equals offset state))
  | inr no_equals ↦
      let room : length tags + pending state + rest ≤ capacity = rw no_equals at le in
      elim (Bool-cases (c == b';')) [
        | inl semi ↦ step-Room_semi c offset rest state tags no_equals semi room
        | inr no_semi ↦ (state, tags, rw (no_equals, no_semi) refl, room)
      ]
]

loop-done :
    (cs : Str) (offset i : ℕ) (state : State) (tags : List TagPair)
    → length tags + pending state + count b'=' cs ≤ capacity
    → find cs b' ' ≡ some i
    → (out : List TagPair) × (loop cs offset state tags ≡ done (offset + i, out))
unfolding loop find
loop-done [] offset i state tags le e = cc
loop-done (c ∷ cs) offset i state tags le e = elim (Bool-cases (c == b' ')) [
  | inl space ↦
      let here : some 0 ≡ some i = rw space at e in
      let zero_i : 0 ≡ i = some_inj here in
      let (out, flushed, size) = flush-room offset state tags (omega (arith, le)) in
      (out, rw (space, flushed) (ap (λ n. done (n, out)) (omega arith)))
  | inr other ↦ elim (Option-cases (find cs b' ')) [
    | inl miss ↦ let bad : none ≡ some i = rw (other, miss) at e in cc
    | inr (j, hit) ↦
        let there : some (suc j) ≡ some i = rw (other, hit) at e in
        let suc_j : suc j ≡ i = some_inj there in
        let (state', tags', stepped, room) = step-Room c offset (count b'=' cs) state tags le in
        let (out, looped) = loop-done cs (offset + 1) j state' tags' room hit in
        (out, rw (other, stepped, looped) (ap (λ n. done (n, out)) (omega arith)))
  ]
]

-- Tags that a space ends, with at most 128 equals signs, are read.
pub parse-tags :
    (s : Str) (i : ℕ)
    → count b'=' s ≤ capacity
    → find s b' ' ≡ some i
    → (tags : List TagPair) × (parse (b'@' ∷ s) 0 ≡ done (some tags, i + 2))
unfolding parse parse_stripped slice_from is_char_boundary strip_prefix
parse-tags s i le e =
    let (out, looped) = loop-done s 0 i (in_key 0) [] (omega (arith, le)) e in
    (out, rw looped (ap (λ n. done (some out, n)) (omega arith)))

-- The position behind the space is a boundary.
pub behind_tags :
    (s : Str) (i : ℕ) → IsText (b'@' ∷ s) → find s b' ' ≡ some i → Boundary (b'@' ∷ s) (i + 2)
behind_tags s i text e =
    let (r, here) = find-drop s b' ' i e in
    Boundary-next (b'@' ∷ s) (suc i) (i + 2) b' ' r text (omega arith) here (omega arith)

-- A line without tags.
pub parse-no_tags : (s : Str) → strip_prefix (codes "@") s ≡ none → parse s 0 ≡ done (none, 0)
unfolding parse parse_stripped slice_from is_char_boundary
parse-no_tags s e = rw e refl
