-- ===== src/Str/Search.antt =====
-- Where a byte is found, when the text is looked at in pieces.
use tmi_rs.Prelude.{
  ℕ, zero, suc, ◌+◌, ◌≤◌, [], ◌∷◌, none, some, ◌≡◌, refl, false, ap, ◌∙◌, inl, inr, arith, ◌==◌,
  Option-cases, Bool-cases, length, take, drop,
}
use native.Mathlib.Nat.{zero-add, suc-add}
use tmi_rs.Str.{Str, find}

-- The byte does not stand before `o`.
abbrev pub NoneBefore : ℕ → Str → ℕ → Type 0
NoneBefore o d b = find (take o d) b ≡ none

find-tail_none :
    (x : ℕ) (s : Str) (b : ℕ) → find (x ∷ s) b ≡ none → ((x == b) ≡ false) × (find s b ≡ none)
unfolding find
find-tail_none x s b h = ground arith

find-head_none :
    (x : ℕ) (s : Str) (b : ℕ) → (x == b) ≡ false → find s b ≡ none → find (x ∷ s) b ≡ none
unfolding find
find-head_none x s b e h = rw (e, h) refl

find-head_some :
    (x : ℕ) (s : Str) (b i : ℕ)
    → (x == b) ≡ false
    → find s b ≡ some i
    → find (x ∷ s) b ≡ some (suc i)
unfolding find
find-head_some x s b i e h = rw (e, h) refl

pub NoneBefore-zero : (d : Str) (b : ℕ) → NoneBefore 0 d b
unfolding find
NoneBefore-zero d b = refl

pub NoneBefore-le : (o p : ℕ) (d : Str) (b : ℕ) → p ≤ o → NoneBefore o d b → NoneBefore p d b
NoneBefore-le o zero d b le h = NoneBefore-zero d b
NoneBefore-le zero (suc p) d b le h = absurd (omega arith)
NoneBefore-le (suc o) (suc p) [] b le h = h
NoneBefore-le (suc o) (suc p) (x ∷ d) b le h =
    let (e, t) = find-tail_none x (take o d) b h in
    find-head_none x (take p d) b e (NoneBefore-le o p d b (omega arith) t)

pub NoneBefore-end : (o : ℕ) (d : Str) (b : ℕ) → length d ≤ o → NoneBefore o d b → find d b ≡ none
NoneBefore-end zero [] b le h = h
NoneBefore-end (suc o) [] b le h = h
NoneBefore-end zero (x ∷ d) b le h = absurd (omega arith)
NoneBefore-end (suc o) (x ∷ d) b le h =
    let (e, t) = find-tail_none x (take o d) b h in
    find-head_none x d b e (NoneBefore-end o d b (omega arith) t)

find-take-some : (n : ℕ) (d : Str) (b i : ℕ) → find (take n d) b ≡ some i → find d b ≡ some i
unfolding find
find-take-some zero d b i h = cc
find-take-some (suc n) [] b i h = cc
find-take-some (suc n) (x ∷ d) b i h = elim (Bool-cases (x == b)) [
  | inl e ↦ ground arith
  | inr e ↦ elim (Option-cases (find (take n d) b)) [
    | inl f ↦ ground arith
    | inr (j, f) ↦ ground (arith, find-take-some n d b j f)
  ]
]

-- A piece of `n` bytes at `o` in which the byte is found.
pub NoneBefore-hit :
    (o n : ℕ) (d : Str) (b i : ℕ)
    → NoneBefore o d b
    → find (take n (drop o d)) b ≡ some i
    → find d b ≡ some (o + i)
NoneBefore-hit zero n d b i h e = find-take-some n d b i e ∙ ap some (omega arith)
NoneBefore-hit (suc o) zero [] b i h e = unfold find in cc
NoneBefore-hit (suc o) (suc n) [] b i h e = unfold find in cc
NoneBefore-hit (suc o) n (x ∷ d) b i h e =
    let (ne, t) = find-tail_none x (take o d) b h in
    find-head_some x d b (o + i) ne (NoneBefore-hit o n d b i t e) ∙ ap some (omega arith)

-- A piece of `n` bytes at `o` in which the byte is not found.
pub NoneBefore-miss :
    (o n : ℕ) (d : Str) (b : ℕ)
    → NoneBefore o d b
    → find (take n (drop o d)) b ≡ none
    → NoneBefore (o + n) d b
NoneBefore-miss zero n d b h e = rw zero-add e
NoneBefore-miss (suc o) n [] b h e = rw suc-add h
NoneBefore-miss (suc o) n (x ∷ d) b h e =
    let (ne, t) = find-tail_none x (take o d) b h in
    rw suc-add (find-head_none x (take (o + n) d) b ne (NoneBefore-miss o n d b t e))

pub length-take-find : (s : Str) (b i : ℕ) → find s b ≡ some i → length (take i s) ≡ i
unfolding find
length-take-find [] b i h = cc
length-take-find (x ∷ s) b zero h = refl
length-take-find (x ∷ s) b (suc i) h = elim (Option-cases (find s b)) [
  | inl f ↦ ground arith
  | inr (j, f) ↦ ground (arith, length-take-find s b i)
]
