-- ===== src/Irc/Tags/Written.antt =====
-- Tags written one after another, and the loop of the scalar parser on them.
use tmi_rs.Prelude.{
  ℕ, ◌+◌, ◌^◌, ◌<◌, ◌≤◌, List, [], ◌∷◌, ◌++◌, ◌≡◌, refl, ap, arith, append_assoc, append-nil,
  length, length-append, ltb-true, All, done, ◌>>=◌, >>=_assoc,
}
use tmi_rs.Str.{Str, Lacks, StartsChar}
use tmi_rs.Irc.Tags.{TagPair, push, in_key, in_value, tag_pair}
use tmi_rs.Irc.Tags.Scalar.{step, loop}

-- `key=value;key=value`
abbrev pub render : List (Str × Str) → Str
render [] = []
render ((k, v) ∷ []) = k ++ b'=' ∷ v
render ((k, v) ∷ e ∷ rest) = k ++ b'=' ∷ (v ++ b';' ∷ render (e ∷ rest))

-- A key and a value that can be written and read back.
abbrev pub IsPair : Str × Str → Type 0
IsPair (k, v) =
    (Lacks b'=' k × Lacks b' ' k × StartsChar k × (length k < 2 ^ 16))
    × (Lacks b';' v × Lacks b' ' v × StartsChar v × (length v < 2 ^ 16))

-- A key and a value that hold nothing that ends them.
abbrev pub Delimited : Str × Str → Type 0
Delimited (k, v) = (Lacks b'=' k × Lacks b' ' k) × (Lacks b';' v × Lacks b' ' v)

pub IsPair-Delimited : (kvs : List (Str × Str)) → All IsPair kvs → All Delimited kvs
IsPair-Delimited [] ok = tt
IsPair-Delimited ((k, v) ∷ kvs) (((eqs, spaces, _, _), (semis, spaces', _, _)), ok) =
    (((eqs, spaces), (semis, spaces')), IsPair-Delimited kvs ok)

-- The position of the next key, if one follows.
abbrev next_key : ℕ → Str → Str → ℕ
next_key o k v = o + length k + 1 + length v + 1

-- The pairs of tags that are written from offset `o` on.
abbrev pub pairs : ℕ → List (Str × Str) → List TagPair
pairs o [] = []
pairs o ((k, v) ∷ rest) =
    tag_pair o (o + length k) (o + length k + 1 + length v) ∷ pairs (next_key o k v) rest

pub loop-key :
    (k t : Str) (o s e : ℕ) (acc : List TagPair)
    → Lacks b'=' k
    → Lacks b' ' k
    → e ≡ o + length k
    → loop (k ++ b'=' ∷ t) o (in_key s) acc ≡ loop t (e + 1) (in_value s e) acc
unfolding loop step
loop-key [] t o s e acc eqs spaces at = let at' : e ≡ o = omega arith in rw at' refl
loop-key (c ∷ k) t o s e acc eqs spaces at =
    ground (arith, loop-key k t (o + 1) s e acc eqs.1 spaces.1)

pub loop-value :
    (v t : Str) (o s e p : ℕ) (acc : List TagPair)
    → Lacks b';' v
    → Lacks b' ' v
    → p ≡ o + length v
    → loop (v ++ b';' ∷ t) o (in_value s e) acc
      ≡ (push acc (tag_pair s e p) >>= λ acc'. loop t (p + 1) (in_key (p + 1)) acc')
unfolding loop step
loop-value [] t o s e p acc semis spaces at =
    let at' : p ≡ o = omega arith in
    rw at' (
      >>=_assoc (push acc (tag_pair s e o)) (λ tags. done (in_key (o + 1), tags))
        (λ (state', tags'). loop t (o + 1) state' tags'))
loop-value (c ∷ v) t o s e p acc semis spaces at =
    ground (arith, loop-value v t (o + 1) s e p acc semis.1 spaces.1)

pub loop-last_value :
    (v t : Str) (o s e p : ℕ) (acc : List TagPair)
    → Lacks b';' v
    → Lacks b' ' v
    → p ≡ o + length v
    → loop (v ++ b' ' ∷ t) o (in_value s e) acc
      ≡ (push acc (tag_pair s e p) >>= λ acc'. done (p, acc'))
unfolding loop step
loop-last_value [] t o s e p acc semis spaces at = let at' : p ≡ o = omega arith in rw at' refl
loop-last_value (c ∷ v) t o s e p acc semis spaces at =
    ground (arith, loop-last_value v t (o + 1) s e p acc semis.1 spaces.1)

push-room :
    (acc : List TagPair) (p : TagPair) → length acc < 128 → push acc p ≡ done (acc ++ p ∷ [])
unfolding push
push-room acc p h = rw (ltb-true (length acc) 128 h) refl

-- The loop over written tags, with a space behind them.
pub loop-render :
    (kvs : List (Str × Str)) (t : Str) (o p : ℕ) (acc : List TagPair)
    → All Delimited kvs
    → length acc + length kvs ≤ 128
    → p ≡ o + length (render kvs)
    → loop (render kvs ++ b' ' ∷ t) o (in_key o) acc ≡ done (p, acc ++ pairs o kvs)
loop-render [] t o p acc ok room at =
    let at' : p ≡ o = omega arith in rw (at', append-nil acc) (unfold loop in refl)
loop-render ((k, v) ∷ []) t o p acc ok room at =
    let e = o + length k in
    rw
      (
        append_assoc k (b'=' ∷ v) (b' ' ∷ t),
        loop-key k (v ++ b' ' ∷ t) o o e acc ok.0.0.0 ok.0.0.1 refl,
        loop-last_value v t (e + 1) o e p acc ok.0.1.0 ok.0.1.1
            (omega (arith, length-append k (b'=' ∷ v))),
        push-room acc (tag_pair o e p) (omega arith),
      )
      (let end : p ≡ e + 1 + length v = omega (arith, length-append k (b'=' ∷ v)) in
        ap (λ n. done (p, acc ++ tag_pair o e n ∷ [])) end)
loop-render ((k, v) ∷ kv ∷ kvs) t o p acc ok room at =
    let e = o + length k in
    let q = e + 1 + length v in
    let later = render (kv ∷ kvs) in
    let pair = tag_pair o e q in
    rw
      (
        append_assoc k (b'=' ∷ (v ++ b';' ∷ later)) (b' ' ∷ t),
        append_assoc v (b';' ∷ later) (b' ' ∷ t),
        loop-key k (v ++ b';' ∷ (later ++ b' ' ∷ t)) o o e acc ok.0.0.0 ok.0.0.1 refl,
        loop-value v (later ++ b' ' ∷ t) (e + 1) o e q acc ok.0.1.0 ok.0.1.1 refl,
        push-room acc pair (omega arith),
        loop-render (kv ∷ kvs) t (q + 1) p (acc ++ pair ∷ []) ok.1
            (omega (arith, length-append acc (pair ∷ [])))
            (omega (
              arith,
              length-append k (b'=' ∷ (v ++ b';' ∷ later)),
              length-append v (b';' ∷ later),
            )),
        append_assoc acc (pair ∷ []) (pairs (q + 1) (kv ∷ kvs)),
      )
      refl
