-- ===== src/Str/Boundary.antt =====
-- The character boundaries of a text, for the searches that stop at an ASCII byte.
use tmi_rs.Prelude.{
  ℕ, zero, suc, ◌+◌, ◌-◌, ◌≤◌, ◌<◌, Bool-cases, true, false, inl, inr, [], ◌∷◌, none, some, ◌≡◌,
  refl, sym, ap, subst, ◌∙◌, arith, drop-drop, leb, leb-true, ◌==◌, ==_iff, length, take, drop,
  done, panicked, Option-cases, ◌&&◌, All,
}
use tmi_rs.Str.{
  Str, is_continuation, is_char_boundary, slice, slice_from, find, starts_with, StartsChar,
}

-- What UTF-8 says of the ASCII bytes: no byte that continues a character stands behind one.
abbrev pub IsText : Str → Type 0
IsText [] = Unit
IsText (c ∷ s) = (c < 128 → StartsChar s) × IsText s

abbrev pub Boundary : Str → ℕ → Type 0
Boundary s i = is_char_boundary s i ≡ true

pub ascii_starts : (c : ℕ) → c < 128 → is_continuation c ≡ false
ascii_starts c h = ground arith

pub IsText-drop : (n : ℕ) (s : Str) → IsText s → IsText (drop n s)
IsText-drop zero s h = h
IsText-drop (suc n) [] h = tt
IsText-drop (suc n) (c ∷ s) (hc, h) = IsText-drop n s h

pub IsText-take : (n : ℕ) (s : Str) → IsText s → IsText (take n s)
IsText-take zero s h = tt
IsText-take (suc n) [] h = tt
IsText-take (suc n) (c ∷ s) (hc, h) = ((λ lt. starts n s (hc lt)), IsText-take n s h)
  where
    starts : (n : ℕ) (s : Str) → StartsChar s → StartsChar (take n s)
    starts zero s h = tt
    starts (suc n) [] h = tt
    starts (suc n) (c ∷ s) h = h

pub Boundary-length : (s : Str) → Boundary s (length s)
unfolding is_char_boundary
Boundary-length [] = refl
Boundary-length (c ∷ []) = refl
Boundary-length (c ∷ d ∷ s) = Boundary-length (d ∷ s)

pub Boundary-le : (s : Str) (i : ℕ) → Boundary s i → i ≤ length s
unfolding is_char_boundary
Boundary-le s zero h = omega arith
Boundary-le [] (suc i) h = cc
Boundary-le (c ∷ s) (suc zero) h = omega arith
Boundary-le (c ∷ s) (suc (suc i)) h = omega (arith, Boundary-le s (suc i) h)

-- The rest of a text that begins a character begins at a boundary.
Boundary-rest :
    (s : Str) (i : ℕ) (c : ℕ) (r : Str)
    → drop i s ≡ c ∷ r
    → is_continuation c ≡ false
    → Boundary s i
unfolding is_char_boundary
Boundary-rest s zero c r e h = refl
Boundary-rest [] (suc i) c r e h = cc
Boundary-rest (d ∷ []) (suc zero) c r e h = cc
Boundary-rest (d ∷ x ∷ s) (suc zero) c r e h = let same : x ≡ c = cc in rw (same, h) refl
Boundary-rest (d ∷ s) (suc (suc i)) c r e h = Boundary-rest s (suc i) c r e h

drop-suc : (i : ℕ) (s : Str) (c : ℕ) (r : Str) → drop i s ≡ c ∷ r → drop (suc i) s ≡ r
drop-suc zero [] c r e = cc
drop-suc zero (d ∷ s) c r e = cc
drop-suc (suc i) [] c r e = cc
drop-suc (suc i) (d ∷ s) c r e = drop-suc i s c r e

-- An ASCII byte stands between two boundaries.
pub Boundary-ascii : (s : Str) (i c : ℕ) (r : Str) → c < 128 → drop i s ≡ c ∷ r → Boundary s i
Boundary-ascii s i c r lt e = Boundary-rest s i c r e (ascii_starts c lt)

Boundary-behind :
    (s : Str) (i c : ℕ) (r : Str) → IsText s → c < 128 → drop i s ≡ c ∷ r → Boundary s (suc i)
unfolding is_char_boundary
Boundary-behind [] zero c r h lt e = cc
Boundary-behind [] (suc i) c r h lt e = cc
Boundary-behind (d ∷ []) zero c r (hd, h) lt e = refl
Boundary-behind (d ∷ x ∷ s) zero c r (hd, h) lt e =
    let same : d ≡ c = cc in
    let starts : is_continuation x ≡ false = hd (omega arith) in rw starts refl
Boundary-behind (d ∷ s) (suc i) c r (hd, h) lt e = Boundary-behind s i c r h lt e

-- The two facts for a position that is written otherwise.
pub Boundary-next :
    (s : Str) (i j c : ℕ) (r : Str)
    → IsText s
    → c < 128
    → drop i s ≡ c ∷ r
    → j ≡ i + 1
    → Boundary s j
Boundary-next s i j c r h lt e next =
    let same : suc i ≡ j = omega arith in subst (Boundary s) same (Boundary-behind s i c r h lt e)

pub drop-next : (s : Str) (i j c : ℕ) (r : Str) → drop i s ≡ c ∷ r → j ≡ i + 1 → drop j s ≡ r
drop-next s i j c r e next =
    let same : suc i ≡ j = omega arith in subst (λ k. drop k s ≡ r) same (drop-suc i s c r e)

pub find-drop : (s : Str) (c i : ℕ) → find s c ≡ some i → (r : Str) × (drop i s ≡ c ∷ r)
unfolding find
find-drop [] c i e = cc
find-drop (d ∷ s) c i e = elim (Bool-cases (d == c)) [
  | inl same ↦
      let here : some 0 ≡ some i = rw same at e in
      let head : d ≡ c = (==_iff d c).0 same in
      let zero_i : 0 ≡ i = cc in
      (s, subst (λ j. drop j (d ∷ s) ≡ c ∷ s) zero_i (ap (λ x. x ∷ s) head))
  | inr differ ↦ elim (Option-cases (find s c)) [
    | inl miss ↦ let bad : none ≡ some i = rw (differ, miss) at e in cc
    | inr (j, hit) ↦
        let there : some (suc j) ≡ some i = rw (differ, hit) at e in
        let suc_j : suc j ≡ i = cc in
        let (r, rest) = find-drop s c j hit in (r, subst (λ k. drop k (d ∷ s) ≡ c ∷ r) suc_j rest)
  ]
]

-- The byte that a search behind `pos` has found.
pub find-behind :
    (s : Str) (pos c i : ℕ) → find (drop pos s) c ≡ some i → (r : Str) × (drop (pos + i) s ≡ c ∷ r)
find-behind s pos c i e =
    let (r, rest) = find-drop (drop pos s) c i e in
    (r, sym (drop-drop i pos (pos + i) s refl) ∙ rest)

-- A slice that has returned begins at a boundary.
pub slice_from-done :
    (s : Str) (a : ℕ) (r : Str) → slice_from s a ≡ done r → Boundary s a × (drop a s ≡ r)
unfolding slice_from
slice_from-done s a r e = elim (Bool-cases (is_char_boundary s a)) [
  | inl inside ↦ let same : done (drop a s) ≡ done r = rw inside at e in (inside, cc)
  | inr out ↦ let bad : panicked ≡ done r = rw out at e in cc
]

pub slice_from-Boundary : (s : Str) (a : ℕ) → Boundary s a → slice_from s a ≡ done (drop a s)
unfolding slice_from
slice_from-Boundary s a h = rw h refl

pub slice-Boundary :
    (s : Str) (a b : ℕ)
    → a ≤ b
    → Boundary s a
    → Boundary s b
    → slice s a b ≡ done (take (b - a) (drop a s))
unfolding slice
slice-Boundary s a b le ha hb = rw (leb-true a b le, ha, hb) refl

pub slice-done-cut :
    (s : Str) (a b : ℕ) (r : Str) → slice s a b ≡ done r → r ≡ take (b - a) (drop a s)
unfolding slice
slice-done-cut s a b r e =
    elim (Bool-cases (leb a b && (is_char_boundary s a && is_char_boundary s b))) [
      | inl inside ↦ let same : done (take (b - a) (drop a s)) ≡ done r = rw inside at e in cc
      | inr out ↦ let bad : panicked ≡ done r = rw out at e in cc
    ]

-- The byte that a test for one byte has found.
pub starts_with-drop :
    (s : Str) (pos c : ℕ)
    → starts_with (c ∷ []) (drop pos s) ≡ true
    → (r : Str) × (drop pos s ≡ c ∷ r)
unfolding starts_with
starts_with-drop s pos c e = head (drop pos s) e
  where
    head : (t : Str) → starts_with (c ∷ []) t ≡ true → (r : Str) × (t ≡ c ∷ r)
    head [] h = cc
    head (d ∷ t) h = elim (Bool-cases (c == d)) [
      | inl same ↦ (t, ap (λ x. x ∷ t) (sym ((==_iff c d).0 same)))
      | inr differ ↦ let bad : false ≡ true = rw differ at h in cc
    ]

-- An ASCII text has no continuation bytes.
pub ascii-IsText : (s : Str) → All (λ c. c < 128) s → IsText s
ascii-IsText [] h = tt
ascii-IsText (c ∷ []) (hc, h) = ((λ _. tt), tt)
ascii-IsText (c ∷ d ∷ s) (hc, (hd, h)) = ((λ _. ascii_starts d hd), ascii-IsText (d ∷ s) (hd, h))
