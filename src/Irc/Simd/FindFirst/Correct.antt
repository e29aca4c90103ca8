-- ===== src/Irc/Simd/FindFirst/Correct.antt =====
-- `find_first` finds what a search byte by byte finds, at every alignment of the data.
use tmi_rs.Prelude.{
  ℕ, zero, suc, ◌+◌, ◌-◌, ◌*◌, ◌/◌, ◌%◌, ◌<◌, ◌≤◌, List, [], ◌∷◌, Option, some, ◌≡◌, refl, ap,
  subst, ◌∙◌, inl, inr, arith, ltb, leb, ◌==◌, length, length-drop, take, drop, map, map?,
  Option-cases, Bool-cases, leb-true, Outcome, done,
}
use native.Mathlib.Nat.{div-add-mod', one-mul, mul_comm, mul-mod_left, mod-lt}
use tmi_rs.Str.{Str, find}
use tmi_rs.Str.Search.{
  NoneBefore, NoneBefore-zero, NoneBefore-le, NoneBefore-end, NoneBefore-hit, NoneBefore-miss,
}
use tmi_rs.Irc.Wide.{Vector, IsVector, mask_of, first, load_unaligned, load_aligned}
use tmi_rs.Irc.Wide.Lanes.{any-first-none, any-first-some}
use tmi_rs.Irc.Simd.FindFirst.{
  scan_small, probe, or_else, last_chunk, single_chunks, unrolled_chunks, find_first,
}

scan_small-find : (d : Str) (b i : ℕ) → scan_small d b i ≡ map? (find d b) (λ j. i + j)
unfolding scan_small find
scan_small-find [] b i = refl
scan_small-find (c ∷ d) b i = elim (Option-cases (find d b)) [
  | inl f ↦ ground (arith, scan_small-find d b (i + 1))
  | inr (j, f) ↦ ground (arith, scan_small-find d b (i + 1))
]

first-find : (d : Str) (b : ℕ) → first (map (λ c. c == b) d) ≡ find d b
unfolding find
first-find [] b = refl
first-find (c ∷ d) b = rw (first-find d b) refl

length-take_le : (n : ℕ) (d : Str) → n ≤ length d → length (take n d) ≡ n
length-take_le zero d h = refl
length-take_le (suc n) [] h = absurd (omega arith)
length-take_le (suc n) (x ∷ d) h = ap suc (length-take_le n d (omega arith))

module _ (v : Vector) (law : IsVector v) where
  probe_lem :
      (chunk : List ℕ) (b o : ℕ)
      → length chunk ≡ v.size
      → probe v chunk b o ≡ map? (find chunk b) (λ i. o + i)
  unfolding probe
  probe_lem chunk b o l =
      let rep = law.movemask_lem chunk b l in
      let lanes = map (λ c. c == b) chunk in
      let any-has = law.has_match_lem lanes (mask_of v chunk b) rep in
      elim (Option-cases (find chunk b)) [
        | inl f ↦ rw (any-has, any-first-none lanes (first-find chunk b ∙ f), f) refl
        | inr (i, f) ↦
            let e = first-find chunk b ∙ f in
            rw (any-has, any-first-some lanes i e, law.first_match_lem lanes _ i rep e, f) refl
      ]

  -- The chunk at `o`.
  abbrev piece : Str → ℕ → List ℕ
  piece d o = take v.size (drop o d)

  length-piece : (d : Str) (o : ℕ) → o + v.size ≤ length d → length (piece d o) ≡ v.size
  length-piece d o h = length-take_le v.size (drop o d) (omega (arith, length-drop o d))

  load_unaligned_lem :
      (d : Str) (o : ℕ) → o + v.size ≤ length d → load_unaligned v d o ≡ done (piece d o)
  unfolding load_unaligned
  load_unaligned_lem d o h =
      rw (leb-true v.size (length (drop o d)) (omega (arith, length-drop o d))) refl

  -- The address `addr + o` is a multiple of the vector's size.
  abbrev IsAligned : ℕ → ℕ → Type 0
  IsAligned addr o = (k : ℕ) × (addr + o ≡ k * v.size)

  load_aligned_lem :
      (addr : ℕ) (d : Str) (o : ℕ)
      → IsAligned addr o
      → o + v.size ≤ length d
      → load_aligned v addr d o ≡ done (piece d o)
  unfolding load_aligned
  load_aligned_lem addr d o (k, e) h =
      rw
        (
          leb-true v.size (length (drop o d)) (omega (arith, length-drop o d)),
          e,
          mul-mod_left k v.size,
        )
        refl

  last_chunk_lem :
      (d : Str) (b o : ℕ)
      → NoneBefore o d b
      → v.size ≤ length d
      → length d < o + v.size
      → last_chunk v d b o ≡ done (find d b)
  unfolding last_chunk
  last_chunk_lem d b o h le lt = elim (Bool-cases (ltb o (length d))) [
    | inl t ↦
        let s = length d - v.size in
        let before = NoneBefore-le o s d b (omega arith) h in
        rw (t, load_unaligned_lem d s (omega arith))
          (elim (Option-cases (find (piece d s) b)) [
            | inl f ↦
                rw
                  (
                    probe_lem (piece d s) b s (length-piece d s (omega arith)),
                    f,
                    NoneBefore-end (s + v.size) d b (omega arith)
                        (NoneBefore-miss s v.size d b before f),
                  )
                  refl
            | inr (i, f) ↦
                rw
                  (
                    probe_lem (piece d s) b s (length-piece d s (omega arith)),
                    f,
                    NoneBefore-hit s v.size d b i before f,
                  )
                  refl
          ])
    | inr t ↦ rw (t, NoneBefore-end o d b (ground arith) h) refl
  ]

  -- A probe at `o`, if all before `o` has been searched.
  probe_step :
      (d : Str) (b o : ℕ) (next : Outcome (Option ℕ))
      → NoneBefore o d b
      → o + v.size ≤ length d
      → (NoneBefore (o + v.size) d b → next ≡ done (find d b))
      → or_else (probe v (piece d o) b o) next ≡ done (find d b)
  probe_step d b o next before fits later = elim (Option-cases (find (piece d o) b)) [
    | inl f ↦
        rw (probe_lem (piece d o) b o (length-piece d o fits), f)
          (later (NoneBefore-miss o v.size d b before f))
    | inr (i, f) ↦
        rw
          (
            probe_lem (piece d o) b o (length-piece d o fits),
            f,
            NoneBefore-hit o v.size d b i before f,
          )
          refl
  ]

  IsAligned-add : (addr o n : ℕ) → IsAligned addr o → IsAligned addr (o + n * v.size)
  IsAligned-add addr o n (k, e) = (k + n, grind arith)

  single_chunks_lem :
      (fuel addr : ℕ) (d : Str) (b o : ℕ)
      → IsAligned addr o
      → NoneBefore o d b
      → v.size ≤ length d
      → length d < fuel + o
      → o ≤ length d
      → single_chunks v fuel addr d b o ≡ done (find d b)
  unfolding single_chunks
  single_chunks_lem zero addr d b o al before le enough ol = absurd (omega arith)
  single_chunks_lem (suc fuel) addr d b o al before le enough ol =
      let pos = law.size_pos in
      elim (Bool-cases (leb (o + v.size) (length d))) [
        | inl t ↦
            let fits : o + v.size ≤ length d = ground arith in
            let al' : IsAligned addr (o + v.size) =
              rw (one-mul v.size) at (IsAligned-add addr o 1 al) in
            rw (t, load_aligned_lem addr d o al fits)
              (probe_step d b o _ before fits λ before'.
                single_chunks_lem fuel addr d b (o + v.size) al' before' le (omega arith) fits)
        | inr t ↦ rw t (last_chunk_lem d b o before le (ground arith))
      ]

  unrolled_chunks_lem :
      (fuel addr : ℕ) (d : Str) (b o : ℕ)
      → IsAligned addr o
      → NoneBefore o d b
      → v.size ≤ length d
      → length d < fuel + o
      → o ≤ length d
      → unrolled_chunks v fuel addr d b o ≡ done (find d b)
  unfolding unrolled_chunks
  unrolled_chunks_lem zero addr d b o al before le enough ol = absurd (omega arith)
  unrolled_chunks_lem (suc fuel) addr d b o al before le enough ol =
      let pos = law.size_pos in
      elim (Bool-cases (ltb (o + 4 * v.size) (length d))) [
        | inl t ↦
            let room : o + 4 * v.size < length d = ground arith in
            let load = λ (n : ℕ) (h : o + n * v.size + v.size ≤ length d).
              load_aligned_lem addr d (o + n * v.size) (IsAligned-add addr o n al) h in
            let step =
              λ (n : ℕ) (next : Outcome (Option ℕ)) (h : NoneBefore (o + n * v.size) d b)
                  (f : o + n * v.size + v.size ≤ length d).
                probe_step d b (o + n * v.size) next h f in
            let at =
              λ (n m : ℕ) (e : o + n * v.size + v.size ≡ o + m * v.size)
                  (h : NoneBefore (o + n * v.size + v.size) d b).
                subst (λ k. NoneBefore k d b) e h in
            let zeroth : o ≡ o + 0 * v.size = omega arith in
            rw
              (
                t,
                mul_comm v.size 0,
                mul_comm v.size 1,
                mul_comm v.size 2,
                mul_comm v.size 3,
                mul_comm v.size 4,
                load 0 (omega arith),
                load 1 (omega arith),
                load 2 (omega arith),
                load 3 (omega arith),
              )
              (step 0 _ (subst (λ k. NoneBefore k d b) zeroth before) (omega arith) λ h1.
                step 1 _ (at 0 1 (omega arith) h1) (omega arith) λ h2.
                  step 2 _ (at 1 2 (omega arith) h2) (omega arith) λ h3.
                    step 3 _ (at 2 3 (omega arith) h3) (omega arith) λ h4.
                      unrolled_chunks_lem fuel addr d b (o + 4 * v.size) (IsAligned-add addr o 4 al)
                        (at 3 4 (omega arith) h4) le (omega arith) (omega arith))
        | inr t ↦ rw t (single_chunks_lem (suc (length d)) addr d b o al before le (omega arith) ol)
      ]

  IsAligned-start : (addr : ℕ) → IsAligned addr (addr + v.size - addr % v.size - addr)
  IsAligned-start addr =
      let pos = law.size_pos in
      let small : addr % v.size < v.size = mod-lt addr pos in
      (addr / v.size + 1, omega (arith, div-add-mod' addr v.size, small, right_suc))
    where
      right_suc : (addr / v.size + 1) * v.size ≡ addr / v.size * v.size + v.size
      right_suc = grind arith

  -- The search by vectors ends, reads nothing outside the data or unaligned, and gives the index
  -- of the first `byte`, wherever in memory the data lies and whichever vector is used.
  pub find_first-find :
      (addr : ℕ) (d : Str) (byte : ℕ) → find_first v addr d byte ≡ done (find d byte)
  unfolding find_first
  find_first-find addr d byte = elim (Bool-cases (ltb (length d) v.size)) [
    | inl t ↦ elim (Option-cases (find d byte)) [
      | inl f ↦ rw (t, scan_small-find d byte 0, f) refl
      | inr (i, f) ↦ rw (t, scan_small-find d byte 0, f) (ap (λ j. done (some j)) (omega arith))
    ]
    | inr t ↦
        let le : v.size ≤ length d = ground arith in
        let le0 : 0 + v.size ≤ length d = omega arith in
        let start = addr + v.size - addr % v.size - addr in
        let pos = law.size_pos in
        let small : addr % v.size < v.size = mod-lt addr pos in
        rw (t, load_unaligned_lem d 0 le0)
          (probe_step d byte 0 _ (NoneBefore-zero d byte) le0 λ h.
            unrolled_chunks_lem (suc (length d)) addr d byte start (IsAligned-start addr)
              (NoneBefore-le (0 + v.size) start d byte (omega arith) h) le (omega arith)
              (omega arith))
  ]
