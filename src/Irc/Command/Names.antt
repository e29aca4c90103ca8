-- ===== src/Irc/Command/Names.antt =====
-- The command parser against `Command::as_str`.
use tmi_rs.Prelude.{
  ◌+◌, ◌^◌, ◌<◌, [], ◌∷◌, ◌++◌, none, some, ◌≡◌, ◌≢◌, refl, inl, inr, All, Option-cases, length,
  done,
}
use tmi_rs.Str.{Str, lookup, Lacks, StartsChar}
use tmi_rs.Str.Laws.{lookup-eq-some, slice_from-append, slice-append, find-append}
use tmi_rs.Irc.Span.{Span, from}
use tmi_rs.Irc.Span.Laws.{index-from}
use tmi_rs.Irc.Command.Known.{IsKnown, known_of_word}
use tmi_rs.Irc.Command.{Command, RawCommand, get, as_str, arms, fallback, classify, advance, parse}

-- `raw` stands for a command that is printed as `s`, whatever the message is.
abbrev Names : Str → RawCommand → Type 0
Names s raw = (c : Command) × ((src : Str) → get raw src ≡ done c) × (as_str c ≡ s)

arms_named : All (λ arm. Names arm.0 arm.1) arms
unfolding get as_str
arms_named = (
  (Command.ping, (λ _. refl), refl),
  (
    (Command.pong, (λ _. refl), refl),
    (
      (Command.join, (λ _. refl), refl),
      (
        (Command.part, (λ _. refl), refl),
        (
          (Command.privmsg, (λ _. refl), refl),
          (
            (Command.whisper, (λ _. refl), refl),
            (
              (Command.clear_chat, (λ _. refl), refl),
              (
                (Command.clear_msg, (λ _. refl), refl),
                (
                  (Command.global_user_state, (λ _. refl), refl),
                  (
                    (Command.notice, (λ _. refl), refl),
                    (
                      (Command.reconnect, (λ _. refl), refl),
                      (
                        (Command.room_state, (λ _. refl), refl),
                        (
                          (Command.user_notice, (λ _. refl), refl),
                          (
                            (Command.user_state, (λ _. refl), refl),
                            (
                              (Command.capability, (λ _. refl), refl),
                              (
                                (Command.rpl_welcome, (λ _. refl), refl),
                                (
                                  (Command.rpl_your_host, (λ _. refl), refl),
                                  (
                                    (Command.rpl_created, (λ _. refl), refl),
                                    (
                                      (Command.rpl_my_info, (λ _. refl), refl),
                                      (
                                        (Command.rpl_names, (λ _. refl), refl),
                                        (
                                          (Command.rpl_end_of_names, (λ _. refl), refl),
                                          (
                                            (Command.rpl_motd, (λ _. refl), refl),
                                            (
                                              (Command.rpl_motd_start, (λ _. refl), refl),
                                              ((Command.rpl_end_of_motd, (λ _. refl), refl), tt),
                                            ),
                                          ),
                                        ),
                                      ),
                                    ),
                                  ),
                                ),
                              ),
                            ),
                          ),
                        ),
                      ),
                    ),
                  ),
                ),
              ),
            ),
          ),
        ),
      ),
    ),
  ),
)

-- The parse of a word that a space ends, up to the match.
parse_word :
    (pre w rest : Str)
    → Lacks b' ' w
    → StartsChar (w ++ b' ' ∷ rest)
    → parse (pre ++ (w ++ b' ' ∷ rest)) (length pre)
      ≡ done (
          advance
            (classify w (from (length pre) (length pre + length w)))
            (length pre)
            (length pre + length w + 1))
unfolding parse
parse_word pre w rest lacks starts =
    rw
      (
        slice_from-append pre (w ++ b' ' ∷ rest) starts,
        find-append w rest b' ' lacks,
        slice-append pre w (b' ' ∷ rest) starts refl,
      )
      refl

-- What the match makes of a word, whose bytes are the span's.
pub classified :
    (src w : Str) (span : Span)
    → w ≢ []
    → get (RawCommand.other span) src ≡ done (Command.other w)
    → (raw : RawCommand) × (c : Command) × (classify w span ≡ some raw)
      × (get raw src ≡ done c)
      × (as_str c ≡ w)
unfolding classify
classified src [] span ne other = absurd (ne refl)
classified src (x ∷ w) span ne other = elim (Option-cases (lookup (x ∷ w) arms)) [
  | inl miss ↦
      (RawCommand.other span, Command.other (x ∷ w), rw miss refl, other, unfold as_str in refl)
  | inr (raw, hit) ↦
      let (c, got, named) = lookup-eq-some Names (x ∷ w) arms arms_named hit in
      (raw, c, rw hit refl, got src, named)
]

get-other :
    (pre w rest : Str)
    → StartsChar (w ++ b' ' ∷ rest)
    → length pre + length w < 2 ^ 32
    → get (RawCommand.other (from (length pre) (length pre + length w))) (pre ++ (w ++ b' ' ∷ rest))
      ≡ done (Command.other w)
unfolding get
get-other pre w rest starts fits = rw (index-from pre w (b' ' ∷ rest) starts refl fits) refl

-- A word that a space ends is read as one command, which is printed as that word; it is the command
-- with that name, where there is one that is known. The position moves behind the space. The word is
-- not empty, begins no character in its middle, and ends below 2 ^ 32.
pub as_str-get :
    (pre w rest : Str)
    → Lacks b' ' w
    → w ≢ []
    → StartsChar (w ++ b' ' ∷ rest)
    → length pre + length w < 2 ^ 32
    → (raw : RawCommand) × (c : Command) × (parse (pre ++ (w ++ b' ' ∷ rest)) (length pre)
        ≡ done (some raw, length pre + length w + 1))
      × (get raw (pre ++ (w ++ b' ' ∷ rest)) ≡ done c)
      × (as_str c ≡ w)
      × ((d : Command) → IsKnown d → as_str d ≡ w → c ≡ d)
as_str-get pre w rest lacks ne starts fits =
    let (raw, c, hit, got, named) = classified _ w _ ne (get-other pre w rest starts fits) in
    (
      raw,
      c,
      rw (parse_word pre w rest lacks starts, hit) (unfold advance in refl),
      got,
      named,
      λ d. known_of_word _ w _ raw c d hit got,
    )

-- No command is empty: at a space the parser returns none and stays where it is.
pub parse_empty :
    (pre rest : Str) → parse (pre ++ b' ' ∷ rest) (length pre) ≡ done (none, length pre)
unfolding advance classify
parse_empty pre rest = rw (parse_word pre [] rest tt refl) (unfold lookup fallback in refl)
