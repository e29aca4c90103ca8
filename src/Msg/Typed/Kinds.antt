-- ===== src/Msg/Typed/Kinds.antt =====
-- Typed messages and the commands that they are of.
use tmi_rs.Prelude.{
  Bool, true, false, Option, none, some, ◌≡◌, ◌⊎◌, inl, inr, refl, subst, done, panicked, spinning,
}
use tmi_rs.Prelude.Int.{ℤ}
use tmi_rs.Irc.Command.{Command}
use tmi_rs.Irc.Message as Lines
use tmi_rs.Irc.Message.{IrcMessage}
use tmi_rs.Msg.Attempt.{Attempt}
use tmi_rs.Msg.Typed.{
  Message, into, typed, from_irc, clear_chat, clear_msg, global_user_state, join, notice, part,
  ping, pong, privmsg, reconnect, room_state, user_notice, user_state, whisper, other,
}

-- The commands with a typed message of their own.
abbrev pub has_type : Command → Bool
has_type Command.clear_chat = true
has_type Command.clear_msg = true
has_type Command.global_user_state = true
has_type Command.join = true
has_type Command.notice = true
has_type Command.part = true
has_type Command.ping = true
has_type Command.pong = true
has_type Command.privmsg = true
has_type Command.reconnect = true
has_type Command.room_state = true
has_type Command.user_notice = true
has_type Command.user_state = true
has_type Command.whisper = true
has_type _ = false

-- The command of a typed message.
abbrev pub command_of : {Time : Type 0} → Message Time → Option Command
command_of (clear_chat _) = some Command.clear_chat
command_of (clear_msg _) = some Command.clear_msg
command_of (global_user_state _) = some Command.global_user_state
command_of (join _) = some Command.join
command_of (notice _) = some Command.notice
command_of (part _) = some Command.part
command_of (ping _) = some Command.ping
command_of (pong _) = some Command.pong
command_of (privmsg _) = some Command.privmsg
command_of reconnect = some Command.reconnect
command_of (room_state _) = some Command.room_state
command_of (user_notice _) = some Command.user_notice
command_of (user_state _) = some Command.user_state
command_of (whisper _) = some Command.whisper
command_of (other _) = none

into-some :
    {A B : Type 0} (f : A → B) (attempt : Attempt A) (b : B)
    → into f attempt ≡ done (some b)
    → (a : A) × (f a ≡ b)
into-some f (done (some a)) b e = (a, cc)
into-some f (done none) b e = cc
into-some f panicked b e = cc
into-some f spinning b e = cc

-- The message is of the command's kind, or it is the line itself where the command has no type.
abbrev pub IsOfKind : {Time : Type 0} → IrcMessage → Command → Message Time → Type 0
IsOfKind m c t =
    ((has_type c ≡ true) × (command_of t ≡ some c)) ⊎ ((has_type c ≡ false) × (t ≡ other m))

module _ {Time : Type 0} (timestamp_millis : ℤ → Option Time) (m : IrcMessage) where
  into-IsOfKind :
      {A : Type 0} (c : Command) (f : A → Message Time) (attempt : Attempt A) (t : Message Time)
      → has_type c ≡ true
      → ((a : A) → command_of (f a) ≡ some c)
      → into f attempt ≡ done (some t)
      → IsOfKind m c t
  into-IsOfKind c f attempt t typed kind e =
      let (a, same) = into-some f attempt t e in
      inl (typed, subst (λ x. command_of x ≡ some c) same (kind a))

  typed-IsOfKind :
      (c : Command) (t : Message Time) → typed timestamp_millis m c ≡ done (some t) → IsOfKind m c t
  unfolding typed
  typed-IsOfKind Command.clear_chat t e =
      into-IsOfKind Command.clear_chat clear_chat _ t refl (λ a. refl) e
  typed-IsOfKind Command.clear_msg t e =
      into-IsOfKind Command.clear_msg clear_msg _ t refl (λ a. refl) e
  typed-IsOfKind Command.global_user_state t e =
      into-IsOfKind Command.global_user_state global_user_state _ t refl (λ a. refl) e
  typed-IsOfKind Command.join t e = into-IsOfKind Command.join join _ t refl (λ a. refl) e
  typed-IsOfKind Command.notice t e = into-IsOfKind Command.notice notice _ t refl (λ a. refl) e
  typed-IsOfKind Command.part t e = into-IsOfKind Command.part part _ t refl (λ a. refl) e
  typed-IsOfKind Command.ping t e = into-IsOfKind Command.ping ping _ t refl (λ a. refl) e
  typed-IsOfKind Command.pong t e = into-IsOfKind Command.pong pong _ t refl (λ a. refl) e
  typed-IsOfKind Command.privmsg t e = into-IsOfKind Command.privmsg privmsg _ t refl (λ a. refl) e
  typed-IsOfKind Command.reconnect t e = inl (
    refl,
    let same : reconnect ≡ t = cc in subst (λ x. command_of x ≡ some Command.reconnect) same refl,
  )
  typed-IsOfKind Command.room_state t e =
      into-IsOfKind Command.room_state room_state _ t refl (λ a. refl) e
  typed-IsOfKind Command.user_notice t e =
      into-IsOfKind Command.user_notice user_notice _ t refl (λ a. refl) e
  typed-IsOfKind Command.user_state t e =
      into-IsOfKind Command.user_state user_state _ t refl (λ a. refl) e
  typed-IsOfKind Command.whisper t e = into-IsOfKind Command.whisper whisper _ t refl (λ a. refl) e
  typed-IsOfKind _ t e = inr (refl, cc)

  -- A typed message has the kind of the line's command; a command that has no typed message of its
  -- own gives the line itself.
  pub from_irc-IsOfKind :
      (c : Command) (t : Message Time)
      → Lines.command m ≡ done c
      → from_irc timestamp_millis m ≡ done (some t)
      → IsOfKind m c t
  unfolding from_irc
  from_irc-IsOfKind c t command e = typed-IsOfKind c t (rw command at e)
