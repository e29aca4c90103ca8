-- ===== src/Msg/UserNotice/Sender.antt =====
-- The sender of a user notice.
use tmi_rs.Prelude.{Bool, true, false, Option, none, some, ◌≡◌, ◌↔◌, refl, subst, done}
use tmi_rs.Prelude.Int.{ℤ}
use tmi_rs.Str.{Str}
use tmi_rs.Irc.Tag as TagNames
use tmi_rs.Irc.Message
use tmi_rs.Irc.Message.{IrcMessage}
use tmi_rs.Msg.Attempt.Laws.{Gives, Gives-ret, Gives->>=, gives_rules}
use tmi_rs.Irc.Command.{Command}
use tmi_rs.Msg.Fields.{User, expect}
use tmi_rs.Msg.Event.{event_of}
use tmi_rs.Msg.Event.Anonymous.{is_anonymous, event_of-is_anonymous}
use tmi_rs.Msg.UserNotice.{UserNotice, sender_unless, parse}

-- A sender is missing exactly when this test holds.
abbrev MissingIf : Bool → Option User → Type 0
MissingIf b sender = (sender ≡ none) ↔ (b ≡ true)

named-MissingIf : (user : User) → MissingIf false (some user)
named-MissingIf user = (λ e. cc, λ e. cc)

sender_unless-MissingIf :
    (m : IrcMessage) (is_anon : Bool) → Gives (MissingIf is_anon) (sender_unless m is_anon)
unfolding sender_unless
sender_unless-MissingIf m false = search (gives_rules, named-MissingIf) depth 20
sender_unless-MissingIf m true = Gives-ret none ((λ e. refl), (λ e. refl))

module _ {Time : Type 0} (timestamp_millis : ℤ → Option Time) (m : IrcMessage) where
  parse-Gives :
      (sender_id : Option Str)
      → Message.tag m TagNames.user_id ≡ done sender_id
      → Gives
          (λ u. MissingIf (is_anonymous u.event_id sender_id) u.sender)
          (parse timestamp_millis m)
  unfolding parse
  parse-Gives sender_id tag = rw tag (
      Gives->>= (expect m Command.user_notice) _ λ _ _.
        Gives->>= (Message.tag m TagNames.msg_id) _ λ event_id _.
          Gives->>= (event_of m event_id sender_id) _ λ event e.
            Gives->>= (sender_unless m event.1) _ λ sender given.
              let flag : event.1 ≡ is_anonymous event_id sender_id =
                (event_of-is_anonymous m event_id sender_id).gives event e in
              let missing : MissingIf (is_anonymous event_id sender_id) sender =
                subst (λ b. MissingIf b sender) flag
                  ((sender_unless-MissingIf m event.1).gives sender given) in
              search gives_rules depth 40)

  -- A user notice has no sender exactly when its event is anonymous, or is not known.
  pub parse-is_anonymous :
      (sender_id : Option Str) (u : UserNotice Time)
      → Message.tag m TagNames.user_id ≡ done sender_id
      → parse timestamp_millis m ≡ done (some u)
      → (u.sender ≡ none) ↔ (is_anonymous u.event_id sender_id ≡ true)
  parse-is_anonymous sender_id u tag e = (parse-Gives sender_id tag).gives u e
