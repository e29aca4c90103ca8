-- ===== src/Irc/Tags/Cut.antt =====
-- Tags whose values do not fit their 16 bits.
use tmi_rs.Prelude.{
  ℕ, zero, suc, ◌+◌, ◌%◌, ◌^◌, ◌<◌, ◌≤◌, false, List, [], ◌∷◌, ◌++◌, some, ◌≡◌, refl, sym, ap, ◌∙◌,
  arith, append_assoc, map, length, length-append, take, drop, take-append-drop, All, done,
}
use tmi_rs.Str.{Str, is_continuation, StartsChar}
use tmi_rs.Str.Boundary.{ascii_starts}
use tmi_rs.Irc.Span.{index}
use tmi_rs.Irc.Tags.{TagPair, get, collect, tag_pair}
use tmi_rs.Irc.Tags.RoundTrip.{
  Delimited, key_fits, value_fits, slice_at, StartsChar-append, line, render, parse-given,
}
use tmi_rs.Irc.Wide.{Vector, IsVector}
use tmi_rs.Irc.Simd
use tmi_rs.Irc.Simd.Agreement.{parse_scalar}
use tmi_rs.Irc.Message.TooMany.{space_follows}
use tmi_rs.Irc.Escape.Tagged.{IsAscii}

-- A tag, with its value cut to as many bytes as the length's last 16 bits say.
abbrev pub cut : Str × Str → Str × Str
cut (k, v) = (k, take (length v % 2 ^ 16) v)

-- A key of fewer than 2 ^ 16 bytes that begins no character in its middle, and an ASCII value.
abbrev pub HasShortKey : Str × Str → Type 0
HasShortKey (k, v) = StartsChar k × (length k < 2 ^ 16) × IsAscii v

StartsChar-drop :
    (n : ℕ) (v : Str) (stop : ℕ) (t : Str)
    → IsAscii v
    → is_continuation stop ≡ false
    → StartsChar (drop n v ++ stop ∷ t)
StartsChar-drop zero [] stop t ok h = h
StartsChar-drop (suc n) [] stop t ok h = h
StartsChar-drop zero (c ∷ v) stop t ok h = ascii_starts c ok.0
StartsChar-drop (suc n) (c ∷ v) stop t ok h = StartsChar-drop n v stop t ok.1 h

ascii_head :
    (v : Str) (stop : ℕ) (t : Str)
    → IsAscii v
    → is_continuation stop ≡ false
    → StartsChar (v ++ stop ∷ t)
ascii_head [] stop t ok h = h
ascii_head (c ∷ v) stop t ok h = ascii_starts c ok.0

length-take : (n : ℕ) (v : Str) → n ≤ length v → length (take n v) ≡ n
length-take zero v h = refl
length-take (suc n) [] h = absurd (omega arith)
length-take (suc n) (c ∷ v) h = omega (arith, length-take n v (omega arith))

-- The length of the value is cut to 16 bits, and nothing else is.
tag_pair_cut :
    (o k v : ℕ)
    → k < 2 ^ 16
    → o + 1 < 2 ^ 32
    → tag_pair o (o + k) (o + k + 1 + v)
      ≡ record { key_start = o + 1; key_end = k; value_end = v % 2 ^ 16 }
tag_pair_cut o k v hk ho = ground arith

get-cut :
    (src pre k v t : Str) (stop : ℕ)
    → HasShortKey (k, v)
    → src ≡ b'@' ∷ (pre ++ (k ++ b'=' ∷ (v ++ stop ∷ t)))
    → is_continuation stop ≡ false
    → length src < 2 ^ 32
    → get src (tag_pair (length pre) (length pre + length k) (length pre + length k + 1 + length v))
      ≡ done (cut (k, v))
unfolding get index
get-cut src pre k v t stop (hk, short, ascii) e hs fits =
    let o = length pre in
    let n = length v % 2 ^ 16 in
    let kept = take n v in
    let lost = drop n v ++ stop ∷ t in
    let tail = v ++ stop ∷ t in
    let few : n ≤ length v = omega arith in
    let size : length kept ≡ n = length-take n v few in
    let same : kept ++ lost ≡ tail =
      sym (append_assoc kept (drop n v) (stop ∷ t))
      ∙ ap (λ s. s ++ stop ∷ t) (take-append-drop n v) in
    let total : length src ≡ o + length k + length v + length t + 3 =
      ap length e
      ∙ omega (
        arith,
        length-append pre (k ++ b'=' ∷ tail),
        length-append k (b'=' ∷ tail),
        length-append v (stop ∷ t),
      ) in
    let starts = StartsChar-drop n v stop t ascii hs in
    let before = b'@' ∷ (pre ++ (k ++ b'=' ∷ [])) in
    let cut_value : src ≡ before ++ (kept ++ lost) = rw same (e ∙ simp append_assoc) in
    ap (get src) (tag_pair_cut o (length k) (length v) short (omega arith))
    ∙ rw
        (
          key_fits o (length k) n (omega arith),
          value_fits o (length k) n (omega arith),
          slice_at src (b'@' ∷ pre) k (b'=' ∷ tail) (o + 1) (o + 1 + length k) e (omega arith) refl
              (StartsChar-append k b'=' tail hk refl) refl,
          slice_at src before kept lost (o + length k + 2) (o + length k + 2 + n) cut_value
              (omega (arith, length-append pre (k ++ b'=' ∷ []), length-append k (b'=' ∷ [])))
              (omega (arith, size)) (rw same (ascii_head v stop t ascii hs)) starts,
        )
        refl

-- At most 128 tags, written behind `@` with a space after them, are read, by every vector that keeps
-- the contract, as the same keys in order, each with its value cut to as many bytes as the value's
-- length modulo 2 ^ 16: a value of 2 ^ 16 bytes or more is not read back. The keys are shorter than 2 ^ 16, no key or value holds what ends
-- it, the values are ASCII, and the line is shorter than 2 ^ 32.
pub parse-cut :
    (v : Vector)
    → IsVector v
    → (addr : ℕ) (kvs : List (Str × Str)) (t : Str) → All Delimited kvs
    → All HasShortKey kvs
    → length kvs ≤ 128
    → length (line kvs t) < 2 ^ 32
    → (tags : List TagPair) × (Simd.parse v addr (line kvs t) 0
        ≡ done (some tags, length (render kvs) + 2))
      × (collect (line kvs t) tags ≡ done (map cut kvs))
parse-cut v law addr kvs t delimited ok few fits =
    let (tags, parsed, texts) = parse-given cut HasShortKey get-cut kvs t delimited ok few fits in
    (
      tags,
      parse_scalar v law addr (line kvs t) 0 (λ s e none_found. space_follows kvs t s e none_found)
          ∙ parsed,
      texts,
    )
