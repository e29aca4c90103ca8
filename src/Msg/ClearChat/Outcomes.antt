-- ===== src/Msg/ClearChat/Outcomes.antt =====
-- Which action a cleared chat has.
use tmi_rs.Prelude.{ℕ, Option, none, some, bind?, ◌≡◌, refl, done}
use tmi_rs.Prelude.Int.{ℤ}
use tmi_rs.Str.{Str}
use tmi_rs.Irc.Command as Commands
use tmi_rs.Irc.Tag as TagNames
use tmi_rs.Irc.Message
use tmi_rs.Irc.Message.{IrcMessage}
use tmi_rs.Msg.Attempt.Laws.{Gives, Gives-ret, Gives->>=, gives_rules}
use tmi_rs.Msg.Fields.{expect, parse_duration}
use tmi_rs.Msg.ClearChat.{
  ClearChat, Action, Ban, TimeOut, clear, ban, time_out, target, target_of, action_of, parse,
}

-- The action of a text and a duration: none clears the whole chat, and with a text the duration
-- tells a timeout from a ban.
abbrev pub Fits : Option Str → Option ℕ → Action → Type 0
Fits none _ action = action ≡ clear
Fits (some name) (some seconds) action =
    (t : TimeOut) × (action ≡ time_out t) × (t.user ≡ name) × (t.duration ≡ seconds)
Fits (some name) none action = (b : Ban) × (action ≡ ban b) × (b.user ≡ name)

action_of-Fits :
    (m : IrcMessage) (text : Option Str) (seconds : Option ℕ)
    → Gives (Fits text seconds) (action_of m text seconds)
unfolding action_of
action_of-Fits m (some name) (some seconds) =
    Gives->>= (Message.tag m TagNames.target_user_id) _ λ id _. Gives-ret _ (_, refl, refl, refl)
action_of-Fits m (some name) none =
    Gives->>= (Message.tag m TagNames.target_user_id) _ λ id _. Gives-ret _ (_, refl, refl)
action_of-Fits m none seconds = Gives-ret clear refl

Fits-target :
    (text : Option Str) (seconds : Option ℕ) (action : Action)
    → Fits text seconds action
    → target_of action ≡ text
unfolding target_of
Fits-target none seconds action h = rw h refl
Fits-target (some name) (some seconds) action (t, same, user, time) = rw (same, user) refl
Fits-target (some name) none action (b, same, user) = rw (same, user) refl

module _ {Time : Type 0} (timestamp_millis : ℤ → Option Time) (m : IrcMessage) where
  parse-Gives :
      (text seconds : Option Str)
      → Message.text_ref m ≡ done text
      → Message.tag m TagNames.ban_duration ≡ done seconds
      → Gives (λ c. Fits text (bind? seconds parse_duration) c.action) (parse timestamp_millis m)
  unfolding parse
  parse-Gives text seconds known tag =
      rw (known, tag)
        (Gives->>= (expect m Commands.clear_chat) _ λ _ _. Gives->>= (Message.channel m) _ λ _ _.
          Gives->>= (Message.tag m TagNames.room_id) _ λ _ _.
            Gives->>= (action_of m text (bind? seconds parse_duration)) _ λ action e.
              let fits = (action_of-Fits m text (bind? seconds parse_duration)).gives action e in
              search gives_rules depth 30)

  -- A cleared chat that is accepted has no target exactly when the line has no text, and then all
  -- is cleared; otherwise the text is the target's name, which is timed out for the duration that
  -- the tag holds, or banned where the tag is missing or holds no number of 64 bits.
  pub parse-target :
      (text seconds : Option Str) (c : ClearChat Time)
      → Message.text_ref m ≡ done text
      → Message.tag m TagNames.ban_duration ≡ done seconds
      → parse timestamp_millis m ≡ done (some c)
      → (target c ≡ text) × Fits text (bind? seconds parse_duration) c.action
  unfolding target
  parse-target text seconds c known tag e =
      let fits = (parse-Gives text seconds known tag).gives c e in
      (Fits-target text (bind? seconds parse_duration) c.action fits, fits)
