-- ===== src/Irc/Channel/Spans.antt =====
-- What the parsers of the channel and of the params take.
use tmi_rs.Prelude.{
  suc, ◌+◌, ◌^◌, ◌<◌, [], ◌∷◌, ◌++◌, some, ◌≡◌, ◌≢◌, refl, arith, ap, append-nil, length,
  length-append, done,
}
use tmi_rs.Str.{Str, starts_with, Lacks, StartsChar}
use tmi_rs.Str.Laws.{slice_from-append, find-append}
use tmi_rs.Irc.Span.{from, index}
use tmi_rs.Irc.Span.Laws.{index_at}
use tmi_rs.Irc.Channel.{parse, parse_params}

-- A channel name with a space behind it is taken whole, and the position moves behind the space.
pub parse-channel :
    (src pre name rest : Str)
    → src ≡ pre ++ (b'#' ∷ (name ++ b' ' ∷ rest))
    → Lacks b' ' name
    → parse src (length pre)
      ≡ done (
        some (from (length pre) (length pre + suc (length name))),
        length pre + suc (length name) + 1,
      )
unfolding parse starts_with
parse-channel src pre name rest e lacks =
    rw
      (
        e,
        slice_from-append pre (b'#' ∷ (name ++ b' ' ∷ rest)) refl,
        find-append (b'#' ∷ name) rest b' ' (omega arith, lacks),
      )
      refl

-- What follows, if anything does, is taken to the end.
pub parse-params :
    (src pre rest : Str)
    → src ≡ pre ++ rest
    → StartsChar rest
    → rest ≢ []
    → parse_params src (length pre) ≡ done (some (from (length pre) (length src)))
unfolding parse_params
parse-params src pre [] e starts ne = absurd (ne refl)
parse-params src pre (c ∷ rest) e starts ne = rw (e, slice_from-append pre (c ∷ rest) starts) refl

pub index_params :
    (src pre rest : Str)
    → src ≡ pre ++ rest
    → StartsChar rest
    → length src < 2 ^ 32
    → index src (from (length pre) (length src)) ≡ done rest
index_params src pre rest e starts fits =
    index_at src pre rest [] (length pre) (length src) (rw append-nil e) refl
      (omega (arith, ap length e, length-append pre rest)) (rw append-nil starts) tt fits
