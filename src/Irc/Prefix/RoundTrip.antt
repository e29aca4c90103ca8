-- ===== src/Irc/Prefix/RoundTrip.antt =====
-- The prefix parser reads back what the printer of a prefix writes.
use tmi_rs.Prelude.{
  ℕ, ◌+◌, ◌^◌, ◌<◌, Option, [], ◌∷◌, ◌++◌, none, some, ◌≡◌, ◌≢◌, refl, sym, arith, ap, append_assoc,
  All, false, drop, length, length-append, done,
}
use native.Mathlib.Nat.{suc-add}
use tmi_rs.Str.{Str, is_continuation, StartsChar, starts_with}
use tmi_rs.Str.Laws.{slice_from-append}
use tmi_rs.Irc.Span.{from, index}
use tmi_rs.Irc.Span.Laws.{index_at}
use tmi_rs.Irc.Prefix.{Prefix, RawPrefix, get, display, Scan, initial, step, scan, settle, parse}

-- A name of a prefix: it holds none of the three bytes that end a part of it.
abbrev pub IsName : Str → Type 0
IsName = All (λ c. (c ≢ b' ') × (c ≢ b'@') × (c ≢ b'!'))

scan-IsName :
    (start : ℕ) (n rest : Str) (i : ℕ) (s : Scan)
    → IsName n
    → scan start (n ++ rest) i s ≡ scan start rest (i + length n) s
unfolding scan step
scan-IsName start [] rest i s h = ap (λ k. scan start rest k s) (omega arith)
scan-IsName start (c ∷ n) rest i s h = ground (arith, scan-IsName start n rest (i + 1) s h.1)

-- What the loop makes of each of the three forms.
scan_host :
    (start : ℕ) (h rest : Str)
    → IsName h
    → scan start (h ++ b' ' ∷ rest) start (initial start) ≡ (
      some (record { nick = none; user = none; host = from start (start + length h) }),
      start + length h + 1,
    )
unfolding scan initial
scan_host start h rest hh = rw (scan-IsName start h (b' ' ∷ rest) start (initial start) hh) refl

scan_nick :
    (start : ℕ) (n h rest : Str)
    → IsName n
    → IsName h
    → let i = start + length n in
      let host = i + 1 in
      scan start (n ++ (b'@' ∷ (h ++ b' ' ∷ rest))) start (initial start) ≡ (
        some (record {
          nick = some (from start i);
          user = none;
          host = from host (host + length h);
        }),
        host + length h + 1,
      )
unfolding scan step initial
scan_nick start n h rest hn hh =
    let i = start + length n in
    rw
      (
        scan-IsName start n (b'@' ∷ (h ++ b' ' ∷ rest)) start (initial start) hn,
        scan-IsName start h (b' ' ∷ rest) (i + 1) (step start i b'@' (initial start)) hh,
      )
      refl

scan_user :
    (start : ℕ) (n u h rest : Str)
    → IsName n
    → IsName u
    → IsName h
    → let i = start + length n in
      let j = i + 1 + length u in
      let host = j + 1 in
      scan start (n ++ (b'!' ∷ (u ++ (b'@' ∷ (h ++ b' ' ∷ rest))))) start (initial start) ≡ (
        some (record {
          nick = some (from start i);
          user = some (from (i + 1) j);
          host = from host (host + length h);
        }),
        host + length h + 1,
      )
unfolding scan step initial
scan_user start n u h rest hn hu hh =
    let i = start + length n in
    let j = i + 1 + length u in
    let s = step start i b'!' (initial start) in
    rw
      (
        scan-IsName start n (b'!' ∷ (u ++ (b'@' ∷ (h ++ b' ' ∷ rest)))) start (initial start) hn,
        scan-IsName start u (b'@' ∷ (h ++ b' ' ∷ rest)) (i + 1) s hu,
        scan-IsName start h (b' ' ∷ rest) (j + 1) (step start j b'@' s) hh,
      )
      refl

-- The text behind the colon.
drop_colon : (pre body : Str) → drop (length pre + 1) (pre ++ b':' ∷ body) ≡ body
drop_colon [] body = refl
drop_colon (c ∷ pre) body = rw (suc-add (length pre) 1) (drop_colon pre body)

parse_colon :
    (pre body : Str)
    → let start = length pre + 1 in
      parse (pre ++ b':' ∷ body) (length pre)
      ≡ done (settle (length pre) (scan start body start (initial start)))
unfolding parse
parse_colon pre body =
    rw (slice_from-append pre (b':' ∷ body) refl, drop_colon pre body) (unfold starts_with in refl)

-- A part of a prefix that can be printed and read back.
abbrev pub IsPart : Str → Type 0
IsPart s = IsName s × StartsChar s

-- The forms that `Display` writes.
abbrev pub AreParts : Option Str → Option Str → Type 0
AreParts none none = Unit
AreParts (some nick) none = IsPart nick
AreParts (some nick) (some user) = IsPart nick × IsPart user
AreParts none (some user) = ⊥

StartsChar-append :
    (s : Str) (c : ℕ) (t : Str) → StartsChar s → is_continuation c ≡ false → StartsChar (s ++ c ∷ t)
StartsChar-append [] c t hs hc = hc
StartsChar-append (x ∷ s) c t hs hc = hs

-- The line with a printed prefix.
abbrev pub line : Str → Prefix → Str → Str
line pre p rest = pre ++ b':' ∷ (display p ++ b' ' ∷ rest)

-- The prefix is read from a line, and stands for `p`.
abbrev pub ReadsBack : Str → Prefix → Str → Type 0
ReadsBack pre p rest =
    (raw : RawPrefix) × (parse (line pre p rest) (length pre)
      ≡ done (some raw, length pre + length (display p) + 2))
    × (get raw (line pre p rest) ≡ done p)

-- A span over a part of what follows the colon.
index_part :
    (pre body q s t : Str) (a b : ℕ)
    → body ≡ q ++ (s ++ t)
    → a ≡ length pre + 1 + length q
    → b ≡ a + length s
    → StartsChar (s ++ t)
    → StartsChar t
    → b < 2 ^ 32
    → index (pre ++ b':' ∷ body) (from a b) ≡ done s
index_part pre body q s t a b e ea eb hs ht h =
    index_at (pre ++ b':' ∷ body) (pre ++ b':' ∷ q) s t a b
      (rw e (sym (append_assoc pre (b':' ∷ q) (s ++ t))))
      (omega (arith, length-append pre (b':' ∷ q))) eb hs ht h

settled :
    (pos : ℕ) (raw : RawPrefix) (i j : ℕ)
    → i ≡ j
    → done (settle pos (some raw, i)) ≡ done (some raw, j)
unfolding settle
settled pos raw i j e = ap (λ k. done (some raw, k)) e

read_host :
    (pre h rest : Str)
    → IsPart h
    → length pre + length h + 1 < 2 ^ 32
    → ReadsBack pre (record { nick = none; user = none; host = h }) rest
unfolding display
read_host pre h rest (hh, sh) fits =
    let start = length pre + 1 in
    let body = h ++ b' ' ∷ rest in
    (
      record { nick = none; user = none; host = from start (start + length h) },
      rw (parse_colon pre body, scan_host start h rest hh)
          (settled (length pre) _ _ _ (omega arith)),
      unfold get in
          rw
            (index_part pre body [] h (b' ' ∷ rest) start (start + length h) refl (omega arith) refl
              (StartsChar-append h b' ' rest sh refl) refl (omega arith))
            refl,
    )

read_nick :
    (pre n h rest : Str)
    → IsPart n
    → IsPart h
    → length pre + length n + length h + 2 < 2 ^ 32
    → ReadsBack pre (record { nick = some n; user = none; host = h }) rest
unfolding display
read_nick pre n h rest (hn, sn) (hh, sh) fits =
    let start = length pre + 1 in
    let i = start + length n in
    let tail = h ++ b' ' ∷ rest in
    let body = n ++ b'@' ∷ tail in
    let regroup = append_assoc n (b'@' ∷ h) (b' ' ∷ rest) in
    (
      record { nick = some (from start i); user = none; host = from (i + 1) (i + 1 + length h) },
      rw (regroup, parse_colon pre body, scan_nick start n h rest hn hh)
          (settled (length pre) _ _ _ (omega (arith, length-append n (b'@' ∷ h)))),
      rw regroup (
          unfold get in
          rw
            (
              index_part pre body [] n (b'@' ∷ tail) start i refl (omega arith) refl
                  (StartsChar-append n b'@' tail sn refl) refl (omega arith),
              index_part pre body (n ++ b'@' ∷ []) h (b' ' ∷ rest) (i + 1) (i + 1 + length h)
                  (sym (append_assoc n (b'@' ∷ []) tail))
                  (omega (arith, length-append n (b'@' ∷ []))) refl
                  (StartsChar-append h b' ' rest sh refl) refl (omega arith),
            )
            refl),
    )

read_user :
    (pre n u h rest : Str)
    → IsPart n
    → IsPart u
    → IsPart h
    → length pre + length n + length u + length h + 3 < 2 ^ 32
    → ReadsBack pre (record { nick = some n; user = some u; host = h }) rest
unfolding display
read_user pre n u h rest (hn, sn) (hu, su) (hh, sh) fits =
    let start = length pre + 1 in
    let i = start + length n in
    let j = i + 1 + length u in
    let tail = h ++ b' ' ∷ rest in
    let later = u ++ b'@' ∷ tail in
    let body = n ++ b'!' ∷ later in
    let size = length-append n (b'!' ∷ (u ++ b'@' ∷ h)) in
    let size' = length-append u (b'@' ∷ h) in
    let regroup : (n ++ (b'!' ∷ (u ++ (b'@' ∷ h)))) ++ b' ' ∷ rest ≡ body = simp append_assoc in
    (
      record {
        nick = some (from start i);
        user = some (from (i + 1) j);
        host = from (j + 1) (j + 1 + length h);
      },
      rw (regroup, parse_colon pre body, scan_user start n u h rest hn hu hh)
          (settled (length pre) _ _ _ (omega (arith, size, size'))),
      rw regroup (
          unfold get in
          rw
            (
              index_part pre body [] n (b'!' ∷ later) start i refl (omega arith) refl
                  (StartsChar-append n b'!' later sn refl) refl (omega arith),
              index_part pre body (n ++ b'!' ∷ []) u (b'@' ∷ tail) (i + 1) j
                  (sym (append_assoc n (b'!' ∷ []) later))
                  (omega (arith, length-append n (b'!' ∷ []))) refl
                  (StartsChar-append u b'@' tail su refl) refl (omega arith),
              index_part pre body (n ++ b'!' ∷ (u ++ b'@' ∷ [])) h (b' ' ∷ rest) (j + 1)
                  (j + 1 + length h) (simp append_assoc)
                  (omega
                    (arith, length-append n (b'!' ∷ (u ++ b'@' ∷ [])), length-append u (b'@' ∷ [])))
                  refl (StartsChar-append h b' ' rest sh refl) refl (omega arith),
            )
            refl),
    )

by_form :
    (pre : Str) (nick user : Option Str) (h rest : Str)
    → AreParts nick user
    → IsPart h
    → length pre + length (display (record { nick = nick; user = user; host = h })) + 1 < 2 ^ 32
    → ReadsBack pre (record { nick = nick; user = user; host = h }) rest
unfolding display
by_form pre none none h rest parts hp fits = read_host pre h rest hp (omega arith)
by_form pre (some n) none h rest parts hp fits =
    read_nick pre n h rest parts hp (omega (arith, length-append n (b'@' ∷ h)))
by_form pre (some n) (some u) h rest parts hp fits =
    read_user pre n u h rest parts.0 parts.1 hp
      (omega (arith, length-append n (b'!' ∷ (u ++ b'@' ∷ h)), length-append u (b'@' ∷ h)))
by_form pre none (some u) h rest parts hp fits = absurd parts

-- A prefix that is printed behind `:`, with a space after it, is read back as it was, and the
-- position moves behind the space. Its parts hold no space, `@` or `!` and begin no character in
-- its middle, there is no user without a nick, and the prefix ends below 2 ^ 32.
pub parse-display :
    (pre : Str) (p : Prefix) (rest : Str)
    → AreParts p.nick p.user
    → IsPart p.host
    → length pre + length (display p) + 1 < 2 ^ 32
    → (raw : RawPrefix) × (parse (pre ++ b':' ∷ (display p ++ b' ' ∷ rest)) (length pre)
        ≡ done (some raw, length pre + length (display p) + 2))
      × (get raw (pre ++ b':' ∷ (display p ++ b' ' ∷ rest)) ≡ done p)
parse-display pre p rest parts hp fits = by_form pre p.nick p.user p.host rest parts hp fits
