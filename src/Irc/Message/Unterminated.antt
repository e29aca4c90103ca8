-- ===== src/Irc/Message/Unterminated.antt =====
-- A line whose tags no space ends, in the build without `simd`.
use tmi_rs.Prelude.{
  ℕ, zero, suc, ◌+◌, ◌<◌, [], ◌∷◌, ◌++◌, false, List, ◌≡◌, refl, ap, arith, ◌⊎◌, inl, inr, ◌==◌,
  ==_false, ltb, Bool-cases, length, Outcome, done, panicked,
}
use tmi_rs.Str.{Str, Lacks, is_char_boundary, slice_from, strip_prefix}
use tmi_rs.Irc.Prefix as Prefixes
use tmi_rs.Irc.Tags.{TagPair, push, capacity, State, in_key, in_value}
use tmi_rs.Irc.Tags.Scalar as Scalars
use tmi_rs.Irc.Tags.Scalar.{step, flush, loop, at_equals, at_semi}
use tmi_rs.Irc.Message.{parse}

-- The call panics or gives a value.
abbrev Settled {ℓ} : {A : Type ℓ} → Outcome A → Type ℓ
Settled {A = A} m = (m ≡ panicked) ⊎ ((a : A) × (m ≡ done a))

push-Settled : (tags : List TagPair) (pair : TagPair) → Settled (push tags pair)
unfolding push
push-Settled tags pair = elim (Bool-cases (ltb (length tags) capacity)) [
  | inl t ↦ inr (tags ++ pair ∷ [], rw t refl)
  | inr t ↦ inl (rw t refl)
]

flush-Settled : (o : ℕ) (state : State) (tags : List TagPair) → Settled (flush o state tags)
unfolding flush
flush-Settled o (in_key k) tags = inr (_, refl)
flush-Settled o (in_value k e) tags = push-Settled tags _

step-Settled : (c o : ℕ) (state : State) (tags : List TagPair) → Settled (step c o state tags)
unfolding step
step-Settled c o state tags = elim (Bool-cases (c == b'=')) [
  | inl t ↦ inr ((at_equals o state, tags), rw t refl)
  | inr t ↦ elim (Bool-cases (c == b';')) [
    | inr t' ↦ inr ((state, tags), rw (t, t') refl)
    | inl t' ↦ elim (flush-Settled o state tags) [
      | inl p ↦ inl (rw (t, t', p) refl)
      | inr (tags', p) ↦ inr ((at_semi o state, tags'), rw (t, t', p) refl)
    ]
  ]
]

-- Without a space the loop runs to the end of the text.
loop_to_end :
    (s : Str) (o : ℕ) (state : State) (tags : List TagPair)
    → Lacks b' ' s
    → (loop s o state tags ≡ panicked)
      ⊎ ((tags' : List TagPair) × (loop s o state tags ≡ done (o + length s, tags')))
unfolding loop
loop_to_end [] o state tags lacks = inr (tags, ap (λ n. done (n, tags)) (omega arith))
loop_to_end (c ∷ s) o state tags (ne, lacks) =
    let t = ==_false c b' ' ne in
    elim (step-Settled c o state tags) [
      | inl p ↦ inl (rw (t, p) refl)
      | inr ((state', tags'), p) ↦ elim (loop_to_end s (o + 1) state' tags' lacks) [
        | inl q ↦ inl (rw (t, p, q) refl)
        | inr (tags'', q) ↦
            let at : o + 1 + length s ≡ o + suc (length s) = omega arith in
            inr (tags'', rw (t, p, q) (ap (λ n. done (n, tags'')) at))
      ]
    ]

boundary_past_end : (s : Str) (n : ℕ) → length s < n → is_char_boundary s n ≡ false
unfolding is_char_boundary
boundary_past_end s zero h = absurd (omega arith)
boundary_past_end [] (suc n) h = refl
boundary_past_end (c ∷ s) (suc zero) h = absurd (omega arith)
boundary_past_end (c ∷ s) (suc (suc n)) h = boundary_past_end s (suc n) (omega arith)

-- With the tag parser by bytes, every line that begins with `@` and holds no space panics, since
-- the position is set behind the end of the line.
pub parse_tags_only : (s : Str) → Lacks b' ' s → parse Scalars.parse (b'@' ∷ s) ≡ panicked
unfolding parse Scalars.parse Scalars.parse_stripped Prefixes.parse slice_from strip_prefix
    is_char_boundary
parse_tags_only s lacks = elim (loop_to_end s 0 (in_key 0) [] lacks) [
  | inl p ↦ rw p refl
  | inr (tags, p) ↦ rw (p, boundary_past_end (b'@' ∷ s) (0 + (0 + length s + 2)) (omega arith)) refl
]
