-- ===== src/Irc/Simd/Chunk/Correct.antt =====
-- One chunk by its masks does what the scalar parser does byte by byte.
use tmi_rs.Prelude.{
  ℕ, zero, suc, ◌+◌, ◌<◌, Bool, true, false, List, [], ◌∷◌, ◌++◌, append_assoc, append-nil, none,
  some, ◌≡◌, refl, sym, ap, subst, fun_ext, ◌∙◌, inl, inr, arith, ◌==◌, length, length-append,
  length-replicate, map, replicate, Bool-cases, Outcome, done, ◌>>=◌,
}
use native.Mathlib.Nat.{add-zero}
use tmi_rs.Str.{Str}
use tmi_rs.Irc.Wide.{Vector, IsVector, first, clear}
use tmi_rs.Irc.Wide.Lanes.{
  any-first-none, any-first-some, first-append, clear-append, first-replicate,
}
use tmi_rs.Irc.Tags.{TagPair, push, State, in_key, in_value, tag_pair}
use tmi_rs.Irc.Tags.Scalar.{step}
use tmi_rs.Irc.Simd.Chunk.{chunk_loop, parse_chunk}

-- The scalar parser's rounds over bytes with no space, from offset `o` on.
abbrev pub run_bytes : Str → ℕ → State → List TagPair → Outcome (State × List TagPair)
run_bytes [] o state tags = done (state, tags)
run_bytes (c ∷ cs) o state tags =
    step c o state tags >>= λ (state', tags'). run_bytes cs (o + 1) state' tags'

-- The lanes of the mask that the state looks at next are not set.
abbrev IsClean : State → List Bool → List Bool → Type 0
IsClean (in_key _) xs ys = first xs ≡ none
IsClean (in_value _ _) xs ys = first ys ≡ none

-- A byte that the state does not look for.
step_other_key :
    (c o key_start : ℕ) (tags : List TagPair)
    → (c == b'=') ≡ false
    → step c o (in_key key_start) tags ≡ done (in_key key_start, tags)
unfolding step
step_other_key c o key_start tags h = ground arith

step_other_value :
    (c o key_start key_end : ℕ) (tags : List TagPair)
    → (c == b';') ≡ false
    → step c o (in_value key_start key_end) tags ≡ done (in_value key_start key_end, tags)
unfolding step
step_other_value c o key_start key_end tags h = ground arith

step_equals :
    (c o key_start : ℕ) (tags : List TagPair)
    → (c == b'=') ≡ true
    → step c o (in_key key_start) tags ≡ done (in_value key_start o, tags)
unfolding step
step_equals c o key_start tags h = ground arith

step_semi :
    (c o key_start key_end : ℕ) (tags : List TagPair)
    → (c == b';') ≡ true
    → step c o (in_value key_start key_end) tags
      ≡ (push tags (tag_pair key_start key_end o) >>= λ tags'. done (in_key (o + 1), tags'))
unfolding step
step_semi c o key_start key_end tags h = ground arith

>>=-pair :
    (m : Outcome (List TagPair)) (s : State)
    (f : State → List TagPair → Outcome (State × List TagPair))
    → ((m >>= λ tags. done (s, tags)) >>= λ (s', t'). f s' t') ≡ (m >>= f s)
>>=-pair (done t) s f = refl
>>=-pair Outcome.panicked s f = refl
>>=-pair Outcome.spinning s f = refl

module _ (v : Vector) (law : IsVector v) where
  open law use {Represents}

  -- The match at the end of lanes that are not set.
  hit :
      (xs es : List Bool) (m : ℕ)
      → first xs ≡ none
      → Represents (xs ++ true ∷ es) m
      → (v.has_match m ≡ true)
        × (v.as_index (v.first_match m) ≡ length xs)
        × (first (xs ++ true ∷ es) ≡ some (length xs))
  hit xs es m clean rep =
      let at : first (xs ++ true ∷ es) ≡ some (length xs) =
        first-append xs (true ∷ es) clean ∙ ap some (add-zero (length xs)) in
      (
        law.has_match_lem _ m rep ∙ any-first-some (xs ++ true ∷ es) (length xs) at,
        law.first_match_lem _ m (length xs) rep at,
        at,
      )

  -- Clearing up to that match leaves the lanes behind it.
  cleared :
      (xs es ys ss : List Bool) (b : Bool) (m n : ℕ)
      → length ys ≡ length xs
      → first (xs ++ true ∷ es) ≡ some (length xs)
      → Represents (xs ++ true ∷ es) m
      → Represents (ys ++ b ∷ ss) n
      → Represents (replicate (suc (length xs)) false ++ ss) (v.clear_to n (v.first_match m))
  cleared xs es ys ss b m n l at rep rep' =
      let shape : clear (suc (length xs)) (ys ++ b ∷ ss) ≡ replicate (suc (length xs)) false ++ ss =
        rw (← l) (clear-append ys ss b) in
      subst (λ lanes. Represents lanes (v.clear_to n (v.first_match m))) shape
        (law.clear_to_lem _ _ m n (length xs) rep rep' at)

  -- A lane that is passed over.
  passed :
      (xs es : List Bool) (b : Bool) (m : ℕ)
      → Represents (xs ++ b ∷ es) m
      → Represents ((xs ++ b ∷ []) ++ es) m
  passed xs es b m rep = subst (λ l. Represents l m) (sym (append_assoc xs (b ∷ []) es)) rep

  clean-append : (xs : List Bool) → first xs ≡ none → first (xs ++ false ∷ []) ≡ none
  clean-append xs h = first-append xs (false ∷ []) h

  abbrev lanes_of : ℕ → Str → List Bool
  lanes_of byte cs = map (λ c. c == byte) cs

  length-snoc : (xs : List Bool) (b : Bool) → length (xs ++ b ∷ []) ≡ length xs + 1
  length-snoc xs b = length-append xs (b ∷ [])

  -- The masks with the first lanes cleared stand for the bytes that are still to be read, at `p`.
  chunk_loop_lem :
      (rest : Str) (fuel o p : ℕ) (state : State) (tags : List TagPair) (xs ys : List Bool)
      (me ms : ℕ)
      → p ≡ o + length xs
      → length ys ≡ length xs
      → IsClean state xs ys
      → Represents (xs ++ lanes_of b'=' rest) me
      → Represents (ys ++ lanes_of b';' rest) ms
      → length rest < fuel
      → chunk_loop v fuel o state me ms tags ≡ run_bytes rest p state tags
  unfolding chunk_loop
  chunk_loop_lem rest zero o p state tags xs ys me ms at l clean re rs lt = absurd (omega arith)
  chunk_loop_lem [] (suc fuel) o p (in_key k) tags xs ys me ms at l clean re rs lt =
      rw (law.has_match_lem _ me re, append-nil xs, any-first-none xs clean) refl
  chunk_loop_lem [] (suc fuel) o p (in_value k e) tags xs ys me ms at l clean re rs lt =
      rw (law.has_match_lem _ ms rs, append-nil ys, any-first-none ys clean) refl
  chunk_loop_lem (c ∷ rest) (suc fuel) o p (in_key k) tags xs ys me ms at l clean re rs lt =
      elim (Bool-cases (c == b'=')) [
        | inl t ↦
            let re' = rw t at re in
            let (has, index, fst) = hit xs (lanes_of b'=' rest) me clean re' in
            let news = replicate (suc (length xs)) false in
            rw (has, index, step_equals c p k tags t, ← at)
              (chunk_loop_lem rest fuel o (p + 1) (in_value k p) tags news news _ _
                (omega (arith, length-replicate (suc (length xs)) false)) refl
                (first-replicate (suc (length xs))) (cleared xs _ xs _ true me me refl fst re' re')
                (cleared xs _ ys _ (c == b';') me ms l fst re' rs) (omega arith))
        | inr t ↦ rw (step_other_key c p k tags t) (
            chunk_loop_lem rest (suc fuel) o (p + 1) (in_key k) tags (xs ++ false ∷ [])
              (ys ++ (c == b';') ∷ []) me ms (omega (arith, length-snoc xs false))
              (omega (arith, length-snoc xs false, length-snoc ys (c == b';')))
              (clean-append xs clean) (passed xs _ false me (rw t at re))
              (passed ys _ (c == b';') ms rs) (omega arith))
      ]
  chunk_loop_lem (c ∷ rest) (suc fuel) o p (in_value k e) tags xs ys me ms at l clean re rs lt =
      elim (Bool-cases (c == b';')) [
        | inl t ↦
            let rs' = rw t at rs in
            let (has, index, fst) = hit ys (lanes_of b';' rest) ms clean rs' in
            let news = replicate (suc (length ys)) false in
            let here : o + length ys ≡ p = omega arith in
            rw
              (
                has,
                index,
                step_semi c p k e tags t,
                here,
                >>=-pair (push tags (tag_pair k e p)) (in_key (p + 1)) (run_bytes rest (p + 1)),
              )
              (ap (λ next. push tags (tag_pair k e p) >>= next)
                (fun_ext λ tags'.
                  chunk_loop_lem rest fuel o (p + 1) (in_key (p + 1)) tags' news news _ _
                    (omega (arith, length-replicate (suc (length ys)) false)) refl
                    (first-replicate (suc (length ys)))
                    (cleared ys _ xs _ (c == b'=') ms me (sym l) fst rs' re)
                    (cleared ys _ ys _ true ms ms refl fst rs' rs') (omega arith)))
        | inr t ↦ rw (step_other_value c p k e tags t) (
            chunk_loop_lem rest (suc fuel) o (p + 1) (in_value k e) tags (xs ++ (c == b'=') ∷ [])
              (ys ++ false ∷ []) me ms (omega (arith, length-snoc xs (c == b'=')))
              (omega (arith, length-snoc xs (c == b'='), length-snoc ys false))
              (clean-append ys clean) (passed xs _ (c == b'=') me re)
              (passed ys _ false ms (rw t at rs)) (omega arith))
      ]

  -- A chunk as long as the vector takes the state machine where the rounds of the parser by bytes
  -- take it, with the same tags or the same panic, for every vector that keeps the contract.
  pub parse_chunk-run_bytes :
      (chunk : Str) (o : ℕ) (state : State) (tags : List TagPair)
      → length chunk ≡ v.size
      → parse_chunk v o chunk state tags ≡ run_bytes chunk o state tags
  unfolding parse_chunk
  parse_chunk-run_bytes chunk o state tags l =
      chunk_loop_lem chunk (suc v.size) o o state tags [] [] _ _ (omega arith) refl
        (any_clean state) (law.movemask_lem chunk b'=' l) (law.movemask_lem chunk b';' l)
        (omega arith)
    where
      any_clean : (s : State) → IsClean s [] []
      any_clean (in_key k) = refl
      any_clean (in_value k e) = refl
