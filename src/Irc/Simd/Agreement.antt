-- ===== src/Irc/Simd/Agreement.antt =====
-- The parser by vectors against the parser by bytes.
use tmi_rs.Prelude.{
  ℕ, zero, suc, ◌+◌, ◌-◌, ◌<◌, ◌≤◌, List, Option, [], ◌∷◌, ◌++◌, none, some, ◌≡◌, ◌≢◌, refl, sym,
  ap, fun_ext, ◌∙◌, inl, inr, arith, ◌==◌, ltb, leb-true, ltb-true, length, length-append,
  length-drop, length-replicate, take, drop, drop-drop, take-append-drop, replicate, Bool-cases,
  Option-cases, Outcome, done, panicked, spinning, ◌>>=◌, >>=_assoc,
}
use tmi_rs.Str.{Str, codes, find, strip_prefix, slice_from}
use tmi_rs.Str.Search.{length-take-find}
use tmi_rs.Irc.Wide.{Vector, IsVector, load_unaligned, load_unaligned_remainder}
use tmi_rs.Irc.Tags.{TagPair, State, in_key}
use tmi_rs.Irc.Tags.Scalar as Scalars
use tmi_rs.Irc.Tags.Scalar.{step, flush, loop}
use tmi_rs.Irc.Simd.{chunks, last_tags, parse_until, parse_stripped, parse}
use tmi_rs.Irc.Simd.FindFirst.Correct.{find_first-find}
use tmi_rs.Irc.Simd.Chunk.Correct.{run_bytes, parse_chunk-run_bytes}

-- The tags of the bytes before the space at `p`, from offset `o` on.
abbrev tags_until : Str → ℕ → ℕ → State → List TagPair → Outcome (List TagPair)
tags_until d o p state tags = run_bytes d o state tags >>= λ (state', tags'). flush p state' tags'

loop_until :
    (s : Str) (end o p : ℕ) (state : State) (tags : List TagPair)
    → find s b' ' ≡ some end
    → p ≡ o + end
    → loop s o state tags ≡ (tags_until (take end s) o p state tags >>= λ tags'. done (p, tags'))
unfolding loop find
loop_until [] end o p state tags h e = cc
loop_until (c ∷ s) end o p state tags h e = elim (Bool-cases (c == b' ')) [
  | inl t ↦
      let first : end ≡ 0 = ground arith in let at : p ≡ o = omega arith in rw (t, first, at) refl
  | inr t ↦ elim (Option-cases (find s b' ')) [
    | inl f ↦ ground arith
    | inr (j, f) ↦
        let next : end ≡ suc j = ground arith in
        rw
          (
            t,
            next,
            >>=_assoc (step c o state tags)
                (λ (state', tags'). run_bytes (take j s) (o + 1) state' tags')
                (λ (state', tags'). flush p state' tags'),
            >>=_assoc {C = ℕ × List TagPair} (step c o state tags)
                (λ (state', tags'). tags_until (take j s) (o + 1) p state' tags')
                (λ tags'. done (p, tags')),
          )
          (ap (λ f. step c o state tags >>= f)
            (fun_ext λ r. loop_until s j (o + 1) p r.0 r.1 f (omega arith)))
  ]
]

run_bytes-append :
    (xs ys : Str) (o p : ℕ) (state : State) (tags : List TagPair)
    → p ≡ o + length xs
    → run_bytes (xs ++ ys) o state tags
      ≡ (run_bytes xs o state tags >>= λ (state', tags'). run_bytes ys p state' tags')
run_bytes-append [] ys o p state tags e =
    ap (λ k. run_bytes ys k state tags) (let e' : o ≡ p = omega arith in e')
run_bytes-append (x ∷ xs) ys o p state tags e =
    rw
      (>>=_assoc (step x o state tags) (λ (state', tags'). run_bytes xs (o + 1) state' tags')
        (λ (state', tags'). run_bytes ys p state' tags'))
      (ap (λ f. step x o state tags >>= f)
        (fun_ext λ r. run_bytes-append xs ys (o + 1) p r.0 r.1 (omega arith)))

step-zero : (o : ℕ) (state : State) (tags : List TagPair) → step 0 o state tags ≡ done (state, tags)
unfolding step
step-zero o state tags = refl

run_bytes-zeros :
    (n o : ℕ) (state : State) (tags : List TagPair)
    → run_bytes (replicate n 0) o state tags ≡ done (state, tags)
run_bytes-zeros zero o state tags = refl
run_bytes-zeros (suc n) o state tags =
    rw (step-zero o state tags) (run_bytes-zeros n (o + 1) state tags)

tags_until-append :
    (xs ys : Str) (o p q : ℕ) (state : State) (tags : List TagPair)
    → p ≡ o + length xs
    → tags_until (xs ++ ys) o q state tags
      ≡ (run_bytes xs o state tags >>= λ r. tags_until ys p q r.0 r.1)
tags_until-append xs ys o p q state tags e = rw (run_bytes-append xs ys o p state tags e) (
    >>=_assoc (run_bytes xs o state tags) (λ (state', tags'). run_bytes ys p state' tags')
      (λ (state', tags'). flush q state' tags'))

length-take_le : (n : ℕ) (d : Str) → n ≤ length d → length (take n d) ≡ n
length-take_le zero d h = refl
length-take_le (suc n) [] h = absurd (omega arith)
length-take_le (suc n) (x ∷ d) h = ap suc (length-take_le n d (omega arith))

module _ (v : Vector) (law : IsVector v) where
  -- The last chunk, from an offset that leaves at least one byte and at most a vector.
  last_tags_lem :
      (d : Str) (o : ℕ) (state : State) (tags : List TagPair)
      → o < length d
      → length d ≤ o + v.size
      → last_tags v d o state tags ≡ tags_until (drop o d) o (length d) state tags
  unfolding last_tags load_unaligned_remainder
  last_tags_lem d o state tags lt le =
      let n = v.size - (length d - o) in
      let zeros = replicate n 0 in
      let size : length (drop o d ++ zeros) ≡ v.size =
        omega
          (arith, length-append (drop o d) zeros, length-drop o d, length-replicate {A = ℕ} n 0) in
      rw
        (
          ltb-true 0 (length d - o) (omega arith),
          leb-true (length d - o) v.size (omega arith),
          parse_chunk-run_bytes v law (drop o d ++ zeros) o state tags size,
          run_bytes-append (drop o d) zeros o (o + length (drop o d)) state tags refl,
          >>=_assoc (run_bytes (drop o d) o state tags)
              (λ (state', tags'). run_bytes zeros (o + length (drop o d)) state' tags')
              (λ (state', tags'). flush (length d) state' tags'),
        )
        (ap (λ f. run_bytes (drop o d) o state tags >>= f)
          (fun_ext λ r. rw (run_bytes-zeros n (o + length (drop o d)) r.0 r.1) refl))

  chunks_lem :
      (fuel : ℕ) (d : Str) (o : ℕ) (state : State) (tags : List TagPair)
      → o < length d
      → length d < fuel + o
      → (chunks v fuel d o state tags >>= λ (o', state', tags'). last_tags v d o' state' tags')
        ≡ tags_until (drop o d) o (length d) state tags
  unfolding chunks load_unaligned
  chunks_lem zero d o state tags lt enough = absurd (omega arith)
  chunks_lem (suc fuel) d o state tags lt enough = elim (Bool-cases (ltb (o + v.size) (length d))) [
    | inl t ↦
        let pos = law.size_pos in
        let more : o + v.size < length d = ground arith in
        let rest = drop o d in
        let room : v.size ≤ length rest = omega (arith, length-drop o d) in
        let piece = take v.size rest in
        let size = length-take_le v.size rest room in
        let split : rest ≡ piece ++ drop (o + v.size) d =
          sym (take-append-drop v.size rest)
          ∙ ap (λ l. piece ++ l) (drop-drop v.size o (o + v.size) d refl) in
        rw
          (
            t,
            leb-true v.size (length rest) room,
            parse_chunk-run_bytes v law piece o state tags size,
            >>=_assoc {C = List TagPair} (run_bytes piece o state tags)
                (λ (state', tags'). chunks v fuel d (o + v.size) state' tags')
                (λ (o', state', tags'). last_tags v d o' state' tags'),
          )
          (ap (λ f. run_bytes piece o state tags >>= f)
              (fun_ext λ r. chunks_lem fuel d (o + v.size) r.0 r.1 more (omega arith))
            ∙ sym (
                tags_until-append piece (drop (o + v.size) d) o (o + v.size) (length d) state tags
                  (omega arith))
            ∙ ap (λ l. tags_until l o (length d) state tags) (sym split))
    | inr t ↦ rw t (last_tags_lem d o state tags lt (ground arith))
  ]

  -- All chunks, from the start.
  all_chunks :
      (d : Str)
      → (chunks v (suc (length d)) d 0 (in_key 0) [] >>= λ (o, state, tags).
          last_tags v d o state tags)
        ≡ tags_until d 0 (length d) (in_key 0) []
  all_chunks [] = unfold chunks last_tags flush in ground arith
  all_chunks (c ∷ d) =
      chunks_lem (suc (length (c ∷ d))) (c ∷ d) 0 (in_key 0) [] (omega arith) (omega arith)

  parse_until_lem :
      (s : Str) (end pos : ℕ)
      → find s b' ' ≡ some end
      → parse_until v pos s (some end)
        ≡ (loop s 0 (in_key 0) [] >>= λ (offset, tags). done (some tags, pos + (offset + 2)))
  unfolding parse_until
  parse_until_lem s end pos h =
      let d = take end s in
      let last : List TagPair → Outcome (Option (List TagPair) × ℕ) =
        λ tags. done (some tags, pos + (end + 2)) in
      let run = chunks v (suc (length d)) d 0 (in_key 0) [] in
      let size : length d ≡ end = length-take-find s b' ' end h in
      sym (>>=_assoc run (λ (o, state, tags). last_tags v d o state tags) last)
      ∙ ap (λ m. m >>= last) (all_chunks d)
      ∙ ap (λ k. tags_until d 0 k (in_key 0) [] >>= last) size
      ∙ sym (
          >>=_assoc (tags_until d 0 end (in_key 0) []) (λ tags. done (end, tags))
            (λ (offset, tags). done (some tags, pos + (offset + 2))))
      ∙ ap (λ m. m >>= λ (offset, tags). done (some tags, pos + (offset + 2)))
          (sym (loop_until s end 0 end (in_key 0) [] h (omega arith)))

  parse_stripped_lem :
      (addr pos : ℕ) (o : Option Str)
      → ((s : Str) → o ≡ some s → find s b' ' ≢ none)
      → parse_stripped v addr pos o ≡ Scalars.parse_stripped pos o
  unfolding parse_stripped Scalars.parse_stripped
  parse_stripped_lem addr pos none ends = refl
  parse_stripped_lem addr pos (some s) ends = elim (Option-cases (find s b' ')) [
    | inl f ↦ absurd (ends s refl f)
    | inr (end, f) ↦ rw (find_first-find v law addr s b' ', f) (parse_until_lem s end pos f)
  ]

  at_sign_text : (rest s : Str) → strip_prefix (codes "@") rest ≡ some s → rest ≡ b'@' ∷ s
  unfolding strip_prefix
  at_sign_text [] s e = cc
  at_sign_text (c ∷ rest) s e = ground arith

  after_slice :
      (addr pos : ℕ) (m : Outcome Str)
      → ((s : Str) → m ≡ done (b'@' ∷ s) → find s b' ' ≢ none)
      → (m >>= λ rest. parse_stripped v addr pos (strip_prefix (codes "@") rest))
        ≡ (m >>= λ rest. Scalars.parse_stripped pos (strip_prefix (codes "@") rest))
  after_slice addr pos (done rest) ends =
      parse_stripped_lem addr pos (strip_prefix (codes "@") rest)
        λ s e. ends s (ap done (at_sign_text rest s e))
  after_slice addr pos panicked ends = refl
  after_slice addr pos spinning ends = refl

  -- Where a space follows the tags, or there are none, the parser by vectors gives what the parser
  -- by bytes gives: the same tags and position, or the same panic. It holds for every vector that
  -- keeps the contract, at every address, and the loops of the parser end.
  pub parse_scalar :
      (addr : ℕ) (src : Str) (pos : ℕ)
      → ((s : Str) → slice_from src pos ≡ done (b'@' ∷ s) → find s b' ' ≢ none)
      → parse v addr src pos ≡ Scalars.parse src pos
  unfolding parse Scalars.parse
  parse_scalar addr src pos ends = after_slice addr pos (slice_from src pos) ends

  -- Where no space follows the tags, the parser by vectors gives none and stays where it is.
  pub parse_unterminated :
      (addr : ℕ) (src : Str) (pos : ℕ) (s : Str)
      → slice_from src pos ≡ done (b'@' ∷ s)
      → find s b' ' ≡ none
      → parse v addr src pos ≡ done (none, pos)
  unfolding parse parse_stripped parse_until strip_prefix
  parse_unterminated addr src pos s at f = rw (at, find_first-find v law addr s b' ', f) refl
