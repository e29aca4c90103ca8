-- ===== src/Irc/Message/Lookup.antt =====
-- `tag` against `tags`, and `text` of the two message types.
use tmi_rs.Prelude.{
  List, Option, [], ◌∷◌, none, some, ◌≡◌, refl, arith, inl, inr, ◌⊎◌, Bool, true, false,
  if◌then◌else◌, Option-cases, Outcome, done, panicked, spinning, ◌>>=◌,
}
use tmi_rs.Str.{Str, find, eq}
use tmi_rs.Irc.Span.{index}
use tmi_rs.Irc.Tag as TagNames
use tmi_rs.Irc.Tag.{Tag}
use tmi_rs.Irc.Tags
use tmi_rs.Irc.Tags.{TagPair, collect}
use tmi_rs.Irc.Message.{
  IrcMessage, params, find_tag, tag, tags, text_of_ref, text_of_owned, text_ref, text_owned,
}

-- The value of the first entry with this key.
abbrev pub first_value : Str → List (Str × Str) → Option Str
first_value key [] = none
first_value key ((k, v) ∷ kvs) = if eq k key then some v else first_value key kvs

if-done {ℓ} :
    {A : Type ℓ} (b : Bool) (x y : A) → (if b then done x else done y) ≡ done (if b then x else y)
if-done true x y = refl
if-done false x y = refl

find_tag-collect :
    (src key : Str) (pairs : List TagPair) (kvs : List (Str × Str))
    → collect src pairs ≡ done kvs
    → find_tag src pairs key ≡ done (first_value key kvs)
unfolding find_tag collect Tags.get
find_tag-collect src key [] kvs e = ground arith
find_tag-collect src key (pair ∷ pairs) kvs e =
    go (index src (Tags.key pair)) (index src (Tags.value pair)) (collect src pairs) refl refl refl
      e (find_tag-collect src key pairs)
  where
    go :
        (mk mv : Outcome Str) (mr : Outcome (List (Str × Str)))
        → index src (Tags.key pair) ≡ mk
        → index src (Tags.value pair) ≡ mv
        → collect src pairs ≡ mr
        → ((mk >>= λ k. mv >>= λ v. done (k, v)) >>= λ kv. mr >>= λ rest. done (kv ∷ rest))
          ≡ done kvs
        → ((kvs : List (Str × Str))
            → collect src pairs ≡ done kvs
            → find_tag src pairs key ≡ done (first_value key kvs))
        → find_tag src (pair ∷ pairs) key ≡ done (first_value key kvs)
    go (done k) (done v) (done rest) ek ev er e' ih =
        let shape : kvs ≡ (k, v) ∷ rest = cc in
        rw (shape, ek, ev, ih rest er) (if-done (eq k key) (some v) (first_value key rest))
    go (done k) (done v) panicked ek ev er e' ih = cc
    go (done k) (done v) spinning ek ev er e' ih = cc
    go (done k) panicked mr ek ev er e' ih = cc
    go (done k) spinning mr ek ev er e' ih = cc
    go panicked mv mr ek ev er e' ih = cc
    go spinning mv mr ek ev er e' ih = cc

-- `tag` gives the value of the first of `tags` with the tag's name, if all the tags can be read.
pub tag-tags :
    (m : IrcMessage) (t : Tag) (kvs : List (Str × Str))
    → tags m ≡ done kvs
    → tag m t ≡ done (first_value (TagNames.as_str t) kvs)
unfolding tag tags
tag-tags m t kvs e = find_tag-collect m.src (TagNames.as_str t) m.parts.tags kvs e

-- The two `text` functions give the same if there are no params, or a colon stands in them;
-- with params and no colon, the borrowed message gives the params and the owned one nothing.
pub text_ref-text_owned :
    (m : IrcMessage) (ps : Option Str)
    → params m ≡ done ps
    → (text_ref m ≡ text_owned m)
      ⊎ ((p : Str) × (ps ≡ some p)
          × (find p b':' ≡ none)
          × (text_ref m ≡ done (some p))
          × (text_owned m ≡ done none))
unfolding text_ref text_owned
text_ref-text_owned m none e = inl (rw e (unfold text_of_ref text_of_owned in refl))
text_ref-text_owned m (some p) e = elim (Option-cases (find p b':')) [
  | inl f ↦
      inr (
        p,
        refl,
        f,
        rw e (unfold text_of_ref in rw f refl),
        rw e (unfold text_of_owned in rw f refl),
      )
  | inr (i, f) ↦ inl (rw e (unfold text_of_ref text_of_owned in rw f refl))
]
