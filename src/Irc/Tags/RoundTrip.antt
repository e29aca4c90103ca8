-- ===== src/Irc/Tags/RoundTrip.antt =====
-- Tags written one after another are read back by the parser that reads byte by byte.
use tmi_rs.Prelude.{
  ℕ, ◌+◌, ◌^◌, ◌<◌, ◌≤◌, false, List, [], ◌∷◌, ◌++◌, some, ◌≡◌, refl, ap, ◌∙◌, arith, append_assoc,
  map, length, length-append, All, done,
}
use native.Mathlib.Nat.{zero-add}
use tmi_rs.Str.{Str, is_continuation, StartsChar, slice, slice_from, is_char_boundary, strip_prefix}
use tmi_rs.Str.Laws.{slice-append}
use tmi_rs.Irc.Span.{index}
use tmi_rs.Irc.Tags.{TagPair, key, value, get, collect, tag_pair}
use tmi_rs.Irc.Tags.Scalar.{parse, parse_stripped}
pub use tmi_rs.Irc.Tags.Written.{
  render, IsPair, Delimited, pairs, loop-key, loop-value, loop-last_value,
}
use tmi_rs.Irc.Tags.Written.{IsPair-Delimited, loop-render}

-- The casts of a pair do nothing within the bounds.
tag_pair_fits :
    (o k v : ℕ)
    → k < 2 ^ 16
    → v < 2 ^ 16
    → o + 1 < 2 ^ 32
    → tag_pair o (o + k) (o + k + 1 + v) ≡ record { key_start = o + 1; key_end = k; value_end = v }
tag_pair_fits o k v hk hv ho = ground arith

pub key_fits :
    (o k v : ℕ)
    → o + 1 + k < 2 ^ 32
    → key (record { key_start = o + 1; key_end = k; value_end = v })
      ≡ record { start = o + 1; end = o + 1 + k }
unfolding key
key_fits o k v h = ground arith

pub value_fits :
    (o k v : ℕ)
    → o + k + 2 + v < 2 ^ 32
    → value (record { key_start = o + 1; key_end = k; value_end = v })
      ≡ record { start = o + k + 2; end = o + k + 2 + v }
unfolding value
value_fits o k v h = ground arith

-- A slice of a text of three parts, at given positions.
pub slice_at :
    (src p s t : Str) (a b : ℕ)
    → src ≡ p ++ (s ++ t)
    → a ≡ length p
    → b ≡ a + length s
    → StartsChar (s ++ t)
    → StartsChar t
    → slice src a b ≡ done s
slice_at src p s t a b e ea eb hs ht =
    let eb' : b ≡ length p + length s = omega arith in rw (e, ea, eb') (slice-append p s t hs ht)

pub StartsChar-append :
    (s : Str) (c : ℕ) (t : Str) → StartsChar s → is_continuation c ≡ false → StartsChar (s ++ c ∷ t)
StartsChar-append [] c t hs hc = hc
StartsChar-append (x ∷ s) c t hs hc = hs

-- One pair in its text, which a byte `stop` ends that continues no character.
get-tag_pair :
    (src pre k v t : Str) (stop : ℕ)
    → IsPair (k, v)
    → src ≡ b'@' ∷ (pre ++ (k ++ b'=' ∷ (v ++ stop ∷ t)))
    → is_continuation stop ≡ false
    → length src < 2 ^ 32
    → get src (tag_pair (length pre) (length pre + length k) (length pre + length k + 1 + length v))
      ≡ done (k, v)
unfolding get index
get-tag_pair src pre k v t stop (hk, hv) e hs fits =
    let o = length pre in
    let tail = v ++ stop ∷ t in
    let n : length src ≡ o + length k + length v + length t + 3 =
      ap length e
      ∙ omega (
        arith,
        length-append pre (k ++ b'=' ∷ tail),
        length-append k (b'=' ∷ tail),
        length-append v (stop ∷ t),
      ) in
    ap (get src) (tag_pair_fits o (length k) (length v) hk.3 hv.3 (omega arith))
    ∙ rw
        (
          key_fits o (length k) (length v) (omega arith),
          value_fits o (length k) (length v) (omega arith),
          slice_at src (b'@' ∷ pre) k (b'=' ∷ tail) (o + 1) (o + 1 + length k) e (omega arith) refl
              (StartsChar-append k b'=' tail hk.2 refl) refl,
          slice_at src (b'@' ∷ (pre ++ (k ++ b'=' ∷ []))) v (stop ∷ t) (o + length k + 2)
              (o + length k + 2 + length v) (e ∙ simp append_assoc)
              (omega (arith, length-append pre (k ++ b'=' ∷ []), length-append k (b'=' ∷ []))) refl
              (StartsChar-append v stop t hv.2 hs) hs,
        )
        refl

-- The text with written tags.
abbrev pub line : List (Str × Str) → Str → Str
line kvs t = b'@' ∷ (render kvs ++ b' ' ∷ t)

-- The texts of all pairs of written tags, where `given` is what is read of one pair in its text.
module _ (given : Str × Str → Str × Str) (Fits : Str × Str → Type 0)
    (get-given : (src pre k v t : Str) (stop : ℕ)
      → Fits (k, v)
      → src ≡ b'@' ∷ (pre ++ (k ++ b'=' ∷ (v ++ stop ∷ t)))
      → is_continuation stop ≡ false
      → length src < 2 ^ 32
      → get src
          (tag_pair (length pre) (length pre + length k) (length pre + length k + 1 + length v))
        ≡ done (given (k, v))) where
  pub collect-pairs :
      (kvs : List (Str × Str)) (src pre t : Str) (o : ℕ)
      → All Fits kvs
      → o ≡ length pre
      → src ≡ b'@' ∷ (pre ++ (render kvs ++ b' ' ∷ t))
      → length src < 2 ^ 32
      → collect src (pairs o kvs) ≡ done (map given kvs)
  unfolding collect
  collect-pairs [] src pre t o ok at e fits = refl
  collect-pairs ((k, v) ∷ []) src pre t o ok at e fits =
      rw
        (
          at,
          get-given src pre k v t b' ' ok.0 (e ∙ rw (append_assoc k (b'=' ∷ v) (b' ' ∷ t))) refl
              fits,
        )
        refl
  collect-pairs ((k, v) ∷ kv ∷ kvs) src pre t o ok at e fits =
      let later = render (kv ∷ kvs) in
      let e' : src ≡ b'@' ∷ (pre ++ (k ++ b'=' ∷ (v ++ b';' ∷ (later ++ b' ' ∷ t)))) =
        e ∙ simp append_assoc in
      let before = pre ++ (k ++ b'=' ∷ (v ++ b';' ∷ [])) in
      rw
        (
          at,
          get-given src pre k v (later ++ b' ' ∷ t) b';' ok.0 e' refl fits,
          collect-pairs (kv ∷ kvs) src before t (length pre + length k + 1 + length v + 1) ok.1
              (omega (
                arith,
                length-append pre (k ++ b'=' ∷ (v ++ b';' ∷ [])),
                length-append k (b'=' ∷ (v ++ b';' ∷ [])),
                length-append v (b';' ∷ []),
              ))
              (e' ∙ simp append_assoc) fits,
        )
        refl

  -- What the parser reads of written tags, with a space behind them.
  pub parse-given :
      (kvs : List (Str × Str)) (t : Str)
      → All Delimited kvs
      → All Fits kvs
      → length kvs ≤ 128
      → length (line kvs t) < 2 ^ 32
      → (tags : List TagPair) × (parse (line kvs t) 0 ≡ done (some tags, length (render kvs) + 2))
        × (collect (line kvs t) tags ≡ done (map given kvs))
  unfolding parse parse_stripped slice_from is_char_boundary strip_prefix
  parse-given kvs t delimited ok room fits = (
    pairs 0 kvs,
    rw (loop-render kvs t 0 (length (render kvs)) [] delimited (omega arith) (omega arith))
        (ap (λ n. done (some (pairs 0 kvs), n)) (zero-add (length (render kvs) + 2))),
    collect-pairs kvs (line kvs t) [] t 0 ok refl refl fits,
  )

map-same : (kvs : List (Str × Str)) → map (λ kv. kv) kvs ≡ kvs
map-same [] = refl
map-same (kv ∷ kvs) = ap (λ l. kv ∷ l) (map-same kvs)

-- At most 128 tags, written behind `@` with a space after them, are all read back in order, and
-- the position moves behind the space. A key holds no `=` or space, a value no `;` or space, each
-- begins no character in its middle and is shorter than 2 ^ 16, and the line is shorter than 2 ^ 32.
pub parse-render :
    (kvs : List (Str × Str)) (t : Str)
    → All IsPair kvs
    → length kvs ≤ 128
    → length (line kvs t) < 2 ^ 32
    → (tags : List TagPair) × (parse (line kvs t) 0 ≡ done (some tags, length (render kvs) + 2))
      × (collect (line kvs t) tags ≡ done kvs)
parse-render kvs t ok room fits =
    let (tags, parsed, texts) =
      parse-given (λ kv. kv) IsPair get-tag_pair kvs t (IsPair-Delimited kvs ok) ok room fits in
    (tags, parsed, texts ∙ ap (λ l. done l) (map-same kvs))
