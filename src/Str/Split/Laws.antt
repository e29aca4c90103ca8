-- ===== src/Str/Split/Laws.antt =====
-- Texts that are cut where they have been put together.
use tmi_rs.Prelude.{
  ℕ, Bool-cases, Option-cases, inl, inr, List, [], ◌∷◌, ◌++◌, none, some, ◌≡◌, refl, ap, ◌∙◌,
  ==_iff, ==_refl, ==_false, ◌==◌, All,
}
use tmi_rs.Str.{Str, strip_prefix, Lacks}
use tmi_rs.Str.Split.{split, split_once, strip_last}

pub strip_prefix-append : (p s : Str) → strip_prefix p (p ++ s) ≡ some s
unfolding strip_prefix
strip_prefix-append [] s = refl
strip_prefix-append (c ∷ p) s = rw (==_refl c) (strip_prefix-append p s)

pub strip_prefix-some : (p s t : Str) → strip_prefix p s ≡ some t → s ≡ p ++ t
unfolding strip_prefix
strip_prefix-some [] s t e = cc
strip_prefix-some (c ∷ p) [] t e = cc
strip_prefix-some (c ∷ p) (d ∷ s) t e = elim (Bool-cases (c == d)) [
  | inl same ↦
      let tail : s ≡ p ++ t = strip_prefix-some p s t (rw same at e) in
      let head : c ≡ d = (==_iff c d).0 same in cc
  | inr differ ↦ let bad : none ≡ some t = rw differ at e in cc
]

pub strip_last-append : (e : ℕ) (s : Str) → strip_last e (s ++ e ∷ []) ≡ some s
unfolding strip_last
strip_last-append e [] = rw (==_refl e) refl
strip_last-append e (c ∷ []) = rw (==_refl e) refl
strip_last-append e (c ∷ d ∷ s) = rw (strip_last-append e (d ∷ s)) refl

pub strip_last-some : (e : ℕ) (s t : Str) → strip_last e s ≡ some t → s ≡ t ++ e ∷ []
unfolding strip_last
strip_last-some e [] t h = cc
strip_last-some e (c ∷ []) t h = elim (Bool-cases (c == e)) [
  | inl same ↦
      let empty : some [] ≡ some t = rw same at h in let last : c ≡ e = (==_iff c e).0 same in cc
  | inr differ ↦ let bad : none ≡ some t = rw differ at h in cc
]
strip_last-some e (c ∷ d ∷ s) t h = elim (Option-cases (strip_last e (d ∷ s))) [
  | inl miss ↦ let bad : none ≡ some t = rw miss at h in cc
  | inr (r, hit) ↦
      let tail : d ∷ s ≡ r ++ e ∷ [] = strip_last-some e (d ∷ s) r hit in
      let whole : some (c ∷ r) ≡ some t = rw hit at h in cc
]

-- The text of several parts with the separator between them.
abbrev pub join : ℕ → Str → List Str → Str
join sep part [] = part
join sep part (next ∷ parts) = part ++ sep ∷ join sep next parts

cons_first-split :
    (sep : ℕ) (part s : Str) (parts : List Str)
    → Lacks sep part
    → split sep s ≡ [] ∷ parts
    → split sep (part ++ s) ≡ part ∷ parts
unfolding split
cons_first-split sep [] s parts h e = e
cons_first-split sep (c ∷ part) s parts (hc, h) e =
    rw (==_false c sep hc, cons_first-split sep part s parts h e) refl

split-Lacks : (sep : ℕ) (s : Str) → Lacks sep s → split sep s ≡ s ∷ []
unfolding split
split-Lacks sep [] h = refl
split-Lacks sep (c ∷ s) (hc, h) = rw (==_false c sep hc, split-Lacks sep s h) refl

split-separator : (sep : ℕ) (s : Str) → split sep (sep ∷ s) ≡ [] ∷ split sep s
unfolding split
split-separator sep s = rw (==_refl sep) refl

-- Parts without the separator are the parts of the text.
pub split-join :
    (sep : ℕ) (part : Str) (parts : List Str)
    → Lacks sep part
    → All (Lacks sep) parts
    → split sep (join sep part parts) ≡ part ∷ parts
split-join sep part [] h hs = split-Lacks sep part h
split-join sep part (next ∷ parts) h (hn, hs) =
    cons_first-split sep part (sep ∷ join sep next parts) (next ∷ parts) h (
      split-separator sep (join sep next parts)
      ∙ ap (λ ps. [] ∷ ps) (split-join sep next parts hn hs))

pub split_once-append :
    (sep : ℕ) (a b : Str) → Lacks sep a → split_once sep (a ++ sep ∷ b) ≡ some (a, b)
unfolding split_once
split_once-append sep [] b h = rw (==_refl sep) refl
split_once-append sep (c ∷ a) b (hc, h) = rw (==_false c sep hc, split_once-append sep a b h) refl
