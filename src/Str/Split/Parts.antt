-- ===== src/Str/Split/Parts.antt =====
-- The parts of a text that is cut: each lacks the separator, and with it between them they are the
-- text.
use tmi_rs.Prelude.{
  ℕ, Bool-cases, inl, inr, List, [], ◌∷◌, ◌++◌, none, some, ◌≡◌, ◌≢◌, ◌⊎◌, refl, sym, ap, ◌∙◌,
  ==_iff, ◌==◌, All, true, false,
}
use tmi_rs.Str.{Str, Lacks}
use tmi_rs.Str.Split.{split, split_once}
use tmi_rs.Str.Split.Laws.{join}

-- A first part and the others.
pub record Parts (sep : ℕ) (s : Str) : Type 0 where
  pub part : Str
  pub parts : List Str
  pub cut : split sep s ≡ part ∷ parts
  pub text : s ≡ join sep part parts
  pub lacks : Lacks sep part
  pub others : All (Lacks sep) parts

join_cons :
    (sep c : ℕ) (part : Str) (parts : List Str)
    → join sep (c ∷ part) parts ≡ c ∷ join sep part parts
join_cons sep c part [] = refl
join_cons sep c part (next ∷ parts) = refl

ne_of_== : (c sep : ℕ) → (c == sep) ≡ false → c ≢ sep
ne_of_== c sep h e = let same = (==_iff c sep).1 e in let bad : true ≡ false = sym same ∙ h in cc

pub split-Parts : (sep : ℕ) (s : Str) → Parts sep s
unfolding split
split-Parts sep [] = record {
  part = [];
  parts = [];
  cut = refl;
  text = refl;
  lacks = tt;
  others = tt;
}
split-Parts sep (c ∷ s) =
    let rest = split-Parts sep s in
    elim (Bool-cases (c == sep)) [
      | inl same ↦ record {
        part = [];
        parts = rest.part ∷ rest.parts;
        cut = rw (same, rest.cut) refl;
        text = let head = (==_iff c sep).0 same in let tail = rest.text in cc;
        lacks = tt;
        others = (rest.lacks, rest.others);
      }
      | inr differ ↦ record {
        part = c ∷ rest.part;
        parts = rest.parts;
        cut = rw (differ, rest.cut) refl;
        text = ap (λ t. c ∷ t) rest.text ∙ sym (join_cons sep c rest.part rest.parts);
        lacks = (ne_of_== c sep differ, rest.lacks);
        others = rest.others;
      }
    ]

-- A text is cut at the first separator, or has none.
pub split_once-cases :
    (sep : ℕ) (s : Str)
    → (Lacks sep s × (split_once sep s ≡ none))
      ⊎ ((a : Str) × (b : Str) × Lacks sep a
          × (s ≡ a ++ sep ∷ b)
          × (split_once sep s ≡ some (a, b)))
unfolding split_once
split_once-cases sep [] = inl (tt, refl)
split_once-cases sep (c ∷ s) = elim (Bool-cases (c == sep)) [
  | inl same ↦
      let head = (==_iff c sep).0 same in inr ([], s, tt, ap (λ d. d ∷ s) head, rw same refl)
  | inr differ ↦ elim (split_once-cases sep s) [
    | inl (lacks, miss) ↦ inl ((ne_of_== c sep differ, lacks), rw (differ, miss) refl)
    | inr (a, b, lacks, e, hit) ↦
        inr (c ∷ a, b, (ne_of_== c sep differ, lacks), ap (λ t. c ∷ t) e, rw (differ, hit) refl)
  ]
]
