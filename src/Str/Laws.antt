-- ===== src/Str/Laws.antt =====
-- Slices and searches of a text that is put together from known parts.
use mathlib.Core.Path.{subst₂}
use tmi_rs.Prelude.{
  List, All, Bool-cases, inl, inr, sym, ℕ, ◌+◌, ◌-◌, true, [], ◌∷◌, ◌++◌, none, some, ◌≡◌, ◌≢◌, ◌↔◌,
  refl, arith, some_inj, leb-true, ==_refl, append_assoc, length, length-append, drop-length-append,
  take-length-append, done,
}
use tmi_rs.Str.{Str, is_char_boundary, slice_from, slice, find, eq, lookup, Lacks, StartsChar}

pub is_char_boundary-append :
    (p s : Str) → StartsChar s → is_char_boundary (p ++ s) (length p) ≡ true
unfolding is_char_boundary
is_char_boundary-append [] s h = refl
is_char_boundary-append (c ∷ []) [] h = refl
is_char_boundary-append (c ∷ []) (d ∷ s) h = rw h
is_char_boundary-append (c ∷ d ∷ p) s h = is_char_boundary-append (d ∷ p) s h

-- The rest of a text behind a known part.
pub slice_from-append : (p s : Str) → StartsChar s → slice_from (p ++ s) (length p) ≡ done s
unfolding slice_from
slice_from-append p s h = rw (is_char_boundary-append p s h, drop-length-append p s)

-- The middle of a text of three parts.
pub slice-append :
    (p s t : Str)
    → StartsChar (s ++ t)
    → StartsChar t
    → slice (p ++ (s ++ t)) (length p) (length p + length s) ≡ done s
unfolding slice
slice-append p s t hs ht =
    let ends : is_char_boundary (p ++ (s ++ t)) (length p + length s) ≡ true =
      rw (← append_assoc p s t, ← length-append p s) (is_char_boundary-append (p ++ s) t ht) in
    let size : length p + length s - length p ≡ length s = omega arith in
    rw
      (
        leb-true (length p) (length p + length s) (omega arith),
        is_char_boundary-append p (s ++ t) hs,
        ends,
        size,
        drop-length-append p (s ++ t),
        take-length-append s t,
      )
      refl

-- The first occurrence behind a part that has none.
pub find-append : (s t : Str) (c : ℕ) → Lacks c s → find (s ++ c ∷ t) c ≡ some (length s)
unfolding find
find-append [] t c h = rw ==_refl
find-append (d ∷ s) t c h = ground (arith, find-append s t c)

pub find-Lacks : (s : Str) (c : ℕ) → Lacks c s → find s c ≡ none
unfolding find
find-Lacks [] c h = refl
find-Lacks (d ∷ s) c h = ground (arith, find-Lacks s c)

pub eq_iff : (s t : Str) → (eq s t ≡ true) ↔ (s ≡ t)
unfolding eq
eq_iff (x ∷ s) (y ∷ t) = ground (arith, eq_iff s t)
eq_iff _ _ = ground arith

pub eq_self : (s : Str) → eq s s ≡ true
eq_self s = (eq_iff s s).1 refl

-- The text of the arm that a match takes.
pub lookup-eq-some {ℓ κ} :
    {A : Type ℓ} (P : Str → A → Type κ) (s : Str) (arms : List (Str × A)) {a : A}
    → All (λ arm. P arm.0 arm.1) arms
    → lookup s arms ≡ some a
    → P s a
unfolding lookup
lookup-eq-some P s [] h e = cc
lookup-eq-some P s ((key, b) ∷ arms) (p, ps) e = elim (Bool-cases (eq s key)) [
  | inl hit ↦ subst₂ P (sym ((eq_iff s key).0 hit)) (some_inj (rw hit at e)) p
  | inr miss ↦ lookup-eq-some P s arms ps (rw miss at e)
]

pub find-mem : (s t : Str) (c : ℕ) → find (s ++ c ∷ t) c ≢ none
unfolding find
find-mem [] t c e = ground (arith, ==_refl c)
find-mem (d ∷ s) t c e = ground (arith, find-mem s t c)
