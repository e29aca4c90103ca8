-- ===== src/Msg/RoomState/Followers.antt =====
-- The followers-only mode of a channel, and how long it lets users follow.
use tmi_rs.Prelude.{
  ℕ, zero, suc, ◌*◌, ◌%◌, ◌^◌, ◌<◌, some, [], ◌≡◌, ◌≢◌, ◌↔◌, sym, ap, ◌∙◌, arith, All, done,
  some_inj,
}
use tmi_rs.Prelude.Int.{ℤ, pos}
use tmi_rs.Str.{Str}
use tmi_rs.Str.Numbers.{parse_i64}
use tmi_rs.Str.Numbers.Laws.{IsDigit, decimal, parse_signed-decimal}
use tmi_rs.Irc.Command as Commands
use tmi_rs.Irc.Tag as TagNames
use tmi_rs.Irc.Message
use tmi_rs.Irc.Message.{IrcMessage}
use tmi_rs.Msg.Attempt.{optional}
use tmi_rs.Msg.Attempt.Laws.{Gives, Gives->>=, gives_rules}
use tmi_rs.Msg.Fields.{expect}
use tmi_rs.Msg.RoomState.{RoomState, enabled, followers_only_of, parse}

followers_only_of_iff :
    (n : ℕ) → (followers_only_of (pos n) ≡ enabled (some (n * 60))) ↔ ((0 < n) × (n * 60 < 2 ^ 64))
unfolding followers_only_of
followers_only_of_iff zero = (λ e. cc, λ h. absurd (omega (arith, h.0)))
followers_only_of_iff (suc n) = (
  λ e. let same : (suc n * 60) % 2 ^ 64 ≡ suc n * 60 = cc in (omega arith, omega arith),
  λ h.
      let same : (suc n * 60) % 2 ^ 64 ≡ suc n * 60 = omega (arith, h.1) in
      ap (λ k. enabled (some k)) same,
)

module _ (m : IrcMessage) (s : Str) where
  parse-Gives :
      (z : ℤ)
      → Message.tag m TagNames.followers_only ≡ done (some s)
      → parse_i64 s ≡ some z
      → Gives (λ r. r.followers_only ≡ some (followers_only_of z)) (parse m)
  unfolding parse
  parse-Gives z tag read = Gives->>= (expect m Commands.room_state) _ λ _ _.
      Gives->>= (Message.channel m) _ λ _ _. Gives->>= (Message.tag m TagNames.room_id) _ λ _ _.
        Gives->>= (optional (Message.tag m TagNames.emote_only)) _
          λ _ _. rw (tag, read) (search gives_rules depth 30)

  -- A room state whose tag holds the decimal number of minutes has followers-only mode of exactly
  -- so many times 60 seconds if and only if there is at least one minute and the seconds fit 64
  -- bits. The number of minutes fits in 63 bits.
  pub parse-followers_only :
      (r : RoomState)
      → Message.tag m TagNames.followers_only ≡ done (some s)
      → s ≢ []
      → All IsDigit s
      → decimal s < 2 ^ 63
      → parse m ≡ done (some r)
      → (r.followers_only ≡ some (enabled (some (decimal s * 60))))
        ↔ ((0 < decimal s) × (decimal s * 60 < 2 ^ 64))
  parse-followers_only r tag ne ds lt e =
      let given : r.followers_only ≡ some (followers_only_of (pos (decimal s))) =
        (parse-Gives (pos (decimal s)) tag (parse_signed-decimal 63 s ne ds lt)).gives r e in
      let exact = followers_only_of_iff (decimal s) in
      (λ h. exact.0 (some_inj (sym given ∙ h)), λ h. given ∙ ap some (exact.1 h))
