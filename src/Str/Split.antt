-- ===== src/Str/Split.antt =====
-- The methods of `str` that cut a text at a character or at a pattern.
pub mod Laws
pub mod Parts
use tmi_rs.Prelude.{
  ℕ, ◌-◌, ◌+◌, Bool, true, false, List, [], ◌∷◌, ◌++◌, Option, none, some, map?, length, take, ◌==◌,
  if◌then◌else◌,
}
use tmi_rs.Str.{Str, eq, find, strip_prefix}

-- The first part grows by a byte.
abbrev pub cons_first : ℕ → List Str → List Str
cons_first c [] = (c ∷ []) ∷ []
cons_first c (part ∷ parts) = (c ∷ part) ∷ parts

-- `s.split(c)` for an ASCII character `c`: one part more than there are separators.
unfoldable pub split : ℕ → Str → List Str
split sep [] = [] ∷ []
split sep (c ∷ s) = let parts = split sep s in if c == sep then [] ∷ parts else cons_first c parts

-- `s.split_once(c)` for an ASCII character `c`.
unfoldable pub split_once : ℕ → Str → Option (Str × Str)
split_once sep [] = none
split_once sep (c ∷ s) =
    let rest = map? (split_once sep s) (λ (a, b). (c ∷ a, b)) in
    if c == sep then some ([], s) else rest

-- What `split_once` gives where the pattern begins here, or else what the rest gives.
abbrev pub at_pattern : ℕ → Option Str → Option (Str × Str) → Option (Str × Str)
at_pattern c (some behind) rest = some ([], behind)
at_pattern c none rest = map? rest (λ (a, b). (c ∷ a, b))

-- `s.split_once(p)` for a pattern of at least one byte.
unfoldable pub split_once_at : Str → Str → Option (Str × Str)
unfolding strip_prefix
split_once_at p [] = none
split_once_at p (c ∷ s) = at_pattern c (strip_prefix p (c ∷ s)) (split_once_at p s)

-- `s.strip_suffix(c)` for an ASCII character `c`.
unfoldable pub strip_last : ℕ → Str → Option Str
strip_last e [] = none
strip_last e (c ∷ []) = if c == e then some [] else none
strip_last e (c ∷ d ∷ s) = map? (strip_last e (d ∷ s)) (λ t. c ∷ t)

abbrev pub cons_some {ℓ} : {B : Type ℓ} → Option B → List B → List B
cons_some none bs = bs
cons_some (some b) bs = b ∷ bs

-- `flat_map` with a function that gives an option.
abbrev pub filter_map {ℓ κ} : {A : Type ℓ} {B : Type κ} → (A → Option B) → List A → List B
filter_map f [] = []
filter_map f (a ∷ rest) = cons_some (f a) (filter_map f rest)
