-- ===== src/Irc/Channel/Tail.antt =====
-- What follows a command: the channel and the params, of which each may be missing.
use tmi_rs.Prelude.{
  ℕ, suc, ◌+◌, ◌^◌, ◌<◌, [], ◌∷◌, ◌++◌, Option, none, some, map?, ◌≡◌, ◌≢◌, refl, sym, arith, ap,
  ◌∙◌, append-nil, append_assoc, length, length-append, done,
}
use tmi_rs.Str.{Str, starts_with, Lacks, StartsChar}
use tmi_rs.Str.Laws.{slice_from-append, find-Lacks}
use tmi_rs.Irc.Span.{Span, from}
use tmi_rs.Irc.Span.Laws.{index_at}
use tmi_rs.Irc.Prefix.{index_option}
use tmi_rs.Irc.Channel.{parse, parse_params}
use tmi_rs.Irc.Channel.Spans.{parse-channel, parse-params, index_params}

-- The text does not begin with this byte.
abbrev pub FirstNot : ℕ → Str → Type 0
FirstNot c [] = Unit
FirstNot c (x ∷ s) = x ≢ c

abbrev pub tail : Option Str → Option Str → Str
tail none none = []
tail (some c) none = b' ' ∷ (b'#' ∷ c)
tail none (some ps) = b' ' ∷ ps
tail (some c) (some ps) = b' ' ∷ (b'#' ∷ (c ++ b' ' ∷ ps))

-- The space in front of what follows.
abbrev pub gap : Option Str → Option Str → ℕ
gap none none = 0
gap _ _ = 1

-- The channel holds no space. The params are not empty and begin no character in their middle, and
-- with no channel they do not begin like one.
abbrev pub IsTail : Option Str → Option Str → Type 0
IsTail none none = Unit
IsTail (some c) none = Lacks b' ' c
IsTail none (some ps) = (ps ≢ []) × StartsChar ps × FirstNot b'#' ps
IsTail (some c) (some ps) = Lacks b' ' c × (ps ≢ []) × StartsChar ps

-- The spans that are read give these texts back.
abbrev pub Reads : Str → ℕ → Option Str → Option Str → Type 0
Reads src pos channel params =
    (ch : Option Span) × (next : ℕ) × (ps : Option Span) × (parse src pos ≡ done (ch, next))
    × (parse_params src next ≡ done ps)
    × (index_option src ch ≡ done (map? channel (λ c. b'#' ∷ c)))
    × (index_option src ps ≡ done params)

no_channel :
    (src pre rest : Str)
    → src ≡ pre ++ rest
    → StartsChar rest
    → FirstNot b'#' rest
    → parse src (length pre) ≡ done (none, length pre)
unfolding parse starts_with
no_channel src pre [] e starts other = rw (e, slice_from-append pre [] starts) refl
no_channel src pre (c ∷ rest) e starts other =
    rw (e, slice_from-append pre (c ∷ rest) starts) (ground arith)

no_params : (src pre : Str) → src ≡ pre → parse_params src (length pre) ≡ done none
unfolding parse_params
no_params src pre e = rw (e ∙ sym (append-nil pre), slice_from-append pre [] tt) refl

last_channel :
    (src pre name : Str)
    → src ≡ pre ++ (b'#' ∷ name)
    → Lacks b' ' name
    → parse src (length pre) ≡ done (some (from (length pre) (length src)), length src)
unfolding parse starts_with
last_channel src pre name e lacks =
    rw
      (
        e,
        slice_from-append pre (b'#' ∷ name) refl,
        find-Lacks (b'#' ∷ name) b' ' (omega arith, lacks),
      )
      refl

pub read_tail :
    (channel params : Option Str) (src pre : Str) (pos : ℕ)
    → src ≡ pre ++ tail channel params
    → pos ≡ length pre + gap channel params
    → IsTail channel params
    → length src < 2 ^ 32
    → Reads src pos channel params
unfolding index_option
read_tail none none src pre pos e at ok fits =
    let at' : pos ≡ length pre = omega arith in
    (
      none,
      length pre,
      none,
      rw at' (no_channel src pre [] e tt tt),
      no_params src pre (e ∙ append-nil pre),
      refl,
      refl,
    )
read_tail (some c) none src pre pos e at ok fits =
    let before = pre ++ b' ' ∷ [] in
    let cut : src ≡ before ++ (b'#' ∷ c) = e ∙ simp append_assoc in
    let at' : pos ≡ length before = omega (arith, length-append pre (b' ' ∷ [])) in
    (
      some (from (length before) (length src)),
      length src,
      none,
      rw at' (last_channel src before c cut ok),
      no_params src src refl,
      rw (index_params src before (b'#' ∷ c) cut refl fits) refl,
      refl,
    )
read_tail none (some ps) src pre pos e at ok fits =
    let before = pre ++ b' ' ∷ [] in
    let cut : src ≡ before ++ ps = e ∙ simp append_assoc in
    let at' : pos ≡ length before = omega (arith, length-append pre (b' ' ∷ [])) in
    (
      none,
      length before,
      some (from (length before) (length src)),
      rw at' (no_channel src before ps cut ok.1 ok.2),
      parse-params src before ps cut ok.1 ok.0,
      refl,
      rw (index_params src before ps cut ok.1 fits) refl,
    )
read_tail (some c) (some ps) src pre pos e at ok fits =
    let before = pre ++ b' ' ∷ [] in
    let between = before ++ (b'#' ∷ (c ++ b' ' ∷ [])) in
    let cut : src ≡ before ++ (b'#' ∷ (c ++ b' ' ∷ ps)) = e ∙ simp append_assoc in
    let cut' : src ≡ between ++ ps = e ∙ simp append_assoc in
    let at' : pos ≡ length before = omega (arith, length-append pre (b' ' ∷ [])) in
    let next : length before + suc (length c) + 1 ≡ length between =
      omega (arith, length-append before (b'#' ∷ (c ++ b' ' ∷ [])), length-append c (b' ' ∷ [])) in
    let size : length src ≡ length between + length ps =
      ap length cut' ∙ length-append between ps in
    (
      some (from (length before) (length before + suc (length c))),
      length between,
      some (from (length between) (length src)),
      rw at' (
          parse-channel src before c ps cut ok.0
          ∙ ap (λ n. done (some (from (length before) (length before + suc (length c))), n)) next),
      parse-params src between ps cut' ok.2 ok.1,
      rw
          (index_at src before (b'#' ∷ c) (b' ' ∷ ps) _ _ cut refl refl refl refl
            (omega (arith, fits, size, next)))
          refl,
      rw (index_params src between ps cut' ok.2 fits) refl,
    )
