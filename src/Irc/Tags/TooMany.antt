-- ===== src/Irc/Tags/TooMany.antt =====
-- The tag parser by bytes on more tags than there is room for.
use tmi_rs.Prelude.{
  ℕ, ◌+◌, ◌<◌, ◌≤◌, true, false, ltb, Bool-cases, inl, inr, List, [], ◌∷◌, ◌++◌, ◌≡◌, refl, arith,
  append_assoc, length, length-append, All, done, panicked,
}
use tmi_rs.Str.{Str, slice_from, is_char_boundary, strip_prefix}
use tmi_rs.Irc.Tags.{TagPair, push, capacity, in_key, tag_pair}
use tmi_rs.Irc.Tags.Scalar.{loop, parse, parse_stripped}
use tmi_rs.Irc.Tags.RoundTrip.{render, IsPair, line, loop-key, loop-value, loop-last_value}

lt_of_ltb : (a b : ℕ) → ltb a b ≡ true → a < b
lt_of_ltb a b h = ground arith

le_of_ltb : (a b : ℕ) → ltb a b ≡ false → b ≤ a
le_of_ltb a b h = ground arith

push_full : (acc : List TagPair) (p : TagPair) → capacity ≤ length acc → push acc p ≡ panicked
unfolding push
push_full acc p h = ground arith

push_room :
    (acc : List TagPair) (p : TagPair)
    → ltb (length acc) capacity ≡ true
    → push acc p ≡ done (acc ++ p ∷ [])
unfolding push
push_room acc p h = rw h refl

-- The loop over written tags that do not all fit.
loop-many :
    (kvs : List (Str × Str)) (t : Str) (o : ℕ) (acc : List TagPair)
    → All IsPair kvs
    → length acc ≤ capacity
    → capacity < length acc + length kvs
    → loop (render kvs ++ b' ' ∷ t) o (in_key o) acc ≡ panicked
loop-many [] t o acc ok room many = absurd (omega arith)
loop-many ((k, v) ∷ []) t o acc ok room many =
    let e = o + length k in
    rw
      (
        append_assoc k (b'=' ∷ v) (b' ' ∷ t),
        loop-key k (v ++ b' ' ∷ t) o o e acc ok.0.0.0 ok.0.0.1 refl,
        loop-last_value v t (e + 1) o e (e + 1 + length v) acc ok.0.1.0 ok.0.1.1 refl,
        push_full acc (tag_pair o e (e + 1 + length v)) (omega arith),
      )
      refl
loop-many ((k, v) ∷ kv ∷ kvs) t o acc ok room many =
    let e = o + length k in
    let q = e + 1 + length v in
    let later = render (kv ∷ kvs) in
    let pair = tag_pair o e q in
    rw
      (
        append_assoc k (b'=' ∷ (v ++ b';' ∷ later)) (b' ' ∷ t),
        append_assoc v (b';' ∷ later) (b' ' ∷ t),
        loop-key k (v ++ b';' ∷ (later ++ b' ' ∷ t)) o o e acc ok.0.0.0 ok.0.0.1 refl,
        loop-value v (later ++ b' ' ∷ t) (e + 1) o e q acc ok.0.1.0 ok.0.1.1 refl,
      )
      (elim (Bool-cases (ltb (length acc) capacity)) [
        | inl some_room ↦
            let below = lt_of_ltb (length acc) capacity some_room in
            rw (push_room acc pair some_room) (
              loop-many (kv ∷ kvs) t (q + 1) (acc ++ pair ∷ []) ok.1
                (omega (arith, length-append acc (pair ∷ []), below))
                (omega (arith, length-append acc (pair ∷ []))))
        | inr full ↦ rw (push_full acc pair (le_of_ltb (length acc) capacity full)) refl
      ])

-- More than 128 written tags, with a space behind them, make the parser panic.
pub parse_many :
    (kvs : List (Str × Str)) (t : Str)
    → All IsPair kvs
    → capacity < length kvs
    → parse (line kvs t) 0 ≡ panicked
unfolding parse parse_stripped slice_from is_char_boundary strip_prefix
parse_many kvs t ok many = rw (loop-many kvs t 0 [] ok (omega arith) (omega arith)) refl
