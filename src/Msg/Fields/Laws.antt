-- ===== src/Msg/Fields/Laws.antt =====
-- The shared parts on their own texts.
use tmi_rs.Prelude.{
  ℕ, ◌^◌, Option-cases, inl, inr, Bool, true, false, [], ◌∷◌, ◌++◌, Option, none, some, ◌≡◌, ◌↔◌,
  refl, sym, ap, subst, ◌∙◌,
}
use tmi_rs.Str.{Str, strip_prefix}
use tmi_rs.Str.Split.{strip_last}
use tmi_rs.Str.Split.Laws.{
  strip_prefix-append, strip_prefix-some, strip_last-append, strip_last-some,
}
use tmi_rs.Str.Numbers.Laws.{Reads, unsigned_digits, parse_unsigned_iff}
use tmi_rs.Msg.Fields.{
  parse_duration, parse_message_text, without_prefix, without_suffix, action_prefix,
  start_of_heading,
}

-- The text of a message that is sent with `/me`.
abbrev pub action : Str → Str
action t = action_prefix ++ (t ++ start_of_heading ∷ [])

parse_message_text-action : (t : Str) → parse_message_text (action t) ≡ (t, true)
unfolding parse_message_text without_prefix
parse_message_text-action t =
    rw
      (
        strip_prefix-append action_prefix (t ++ start_of_heading ∷ []),
        strip_last-append start_of_heading t,
      )
      (unfold without_suffix in refl)

without_suffix-text :
    (input : Str) (o : Option Str) (t : Str) (b : Bool)
    → without_suffix input o ≡ (t, b)
    → ((b ≡ true) → o ≡ some t) × ((b ≡ false) → t ≡ input)
unfolding without_suffix
without_suffix-text input none t b e = (λ h. cc, λ h. cc)
without_suffix-text input (some s) t b e = (λ h. cc, λ h. cc)

without_prefix-text :
    (input t : Str) (b : Bool)
    → without_prefix input (strip_prefix action_prefix input) ≡ (t, b)
    → ((b ≡ true) → input ≡ action t) × ((b ≡ false) → t ≡ input)
unfolding without_prefix
without_prefix-text input t b e = elim (Option-cases (strip_prefix action_prefix input)) [
  | inl miss ↦ let plain : (input, false) ≡ (t, b) = rw miss at e in (λ h. cc, λ h. cc)
  | inr (s, hit) ↦
      let (marked, kept) =
        without_suffix-text input (strip_last start_of_heading s) t b (rw hit at e) in
      (
        λ h.
            strip_prefix-some action_prefix input s hit
            ∙ ap (λ r. action_prefix ++ r) (strip_last-some start_of_heading s t (marked h)),
        kept,
      )
]

-- A text is an action with the text `t` exactly when it is `t` between the marks of an action, and
-- any other text is kept as it is.
pub parse_message_text_iff :
    (input t : Str)
    → ((parse_message_text input ≡ (t, true)) ↔ (input ≡ action t))
      × ((parse_message_text input ≡ (t, false)) → t ≡ input)
unfolding parse_message_text
parse_message_text_iff input t = (
  (
    λ e. (without_prefix-text input t true e).0 refl,
    λ e. subst (λ s. parse_message_text s ≡ (t, true)) (sym e) (parse_message_text-action t),
  ),
  λ e. (without_prefix-text input t false e).1 refl,
)

-- A duration of `n` seconds is read exactly from the decimal numbers `n` below 2 ^ 64, with a plus
-- sign in front or without.
pub parse_duration_iff :
    (s : Str) (n : ℕ) → (parse_duration s ≡ some n) ↔ Reads (2 ^ 64) (unsigned_digits s) n
unfolding parse_duration
parse_duration_iff s n = parse_unsigned_iff 64 n s
