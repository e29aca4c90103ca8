-- ===== src/Irc/Command/Last.antt =====
-- A command with what follows it, or at the end of the text.
use tmi_rs.Prelude.{
  ℕ, ◌+◌, ◌^◌, ◌<◌, [], ◌++◌, some, ◌≡◌, ◌≢◌, refl, append-nil, length, length-append, done,
}
use tmi_rs.Str.{Str, Lacks, StartsChar}
use tmi_rs.Str.Laws.{slice_from-append, slice-append, find-Lacks}
use tmi_rs.Irc.Span.{from}
use tmi_rs.Irc.Span.Laws.{index-from}
use tmi_rs.Irc.Command.Known.{IsKnown, known_of_word}
use tmi_rs.Irc.Command.Names.{classified}
use tmi_rs.Irc.Command.{Command, RawCommand, get, as_str, classify, advance, command_end, parse}

-- The command that is read at `pos`, and the position behind it.
abbrev pub Names : Str → ℕ → Str → ℕ → Type 0
Names src pos w next =
    (raw : RawCommand) × (c : Command) × (parse src pos ≡ done (some raw, next))
    × (get raw src ≡ done c)
    × (as_str c ≡ w)
    × ((d : Command) → IsKnown d → as_str d ≡ w → c ≡ d)

get-last :
    (pre w : Str)
    → StartsChar w
    → length pre + length w < 2 ^ 32
    → get (RawCommand.other (from (length pre) (length pre + length w))) (pre ++ w)
      ≡ done (Command.other w)
unfolding get
get-last pre w starts fits =
    let at = index-from pre w [] (rw append-nil starts) tt fits in
    let whole : pre ++ (w ++ []) ≡ pre ++ w = rw append-nil refl in rw (← whole, at) refl

parse_last :
    (pre w : Str)
    → Lacks b' ' w
    → StartsChar w
    → parse (pre ++ w) (length pre)
      ≡ done (
          advance
            (classify w (from (length pre) (length pre + length w)))
            (length pre)
            (length pre + length w))
unfolding parse command_end
parse_last pre w lacks starts =
    let whole : pre ++ (w ++ []) ≡ pre ++ w = rw append-nil refl in
    let cut = slice-append pre w [] (rw append-nil starts) tt in
    rw (slice_from-append pre w starts, find-Lacks w b' ' lacks, length-append pre w, ← whole, cut)
      refl

pub as_str-get_last :
    (pre w : Str)
    → Lacks b' ' w
    → w ≢ []
    → StartsChar w
    → length pre + length w < 2 ^ 32
    → Names (pre ++ w) (length pre) w (length pre + length w)
as_str-get_last pre w lacks ne starts fits =
    let (raw, c, hit, got, named) = classified _ w _ ne (get-last pre w starts fits) in
    (
      raw,
      c,
      rw (parse_last pre w lacks starts, hit) (unfold advance in refl),
      got,
      named,
      λ d. known_of_word _ w _ raw c d hit got,
    )
