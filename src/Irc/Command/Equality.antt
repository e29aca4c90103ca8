-- ===== src/Irc/Command/Equality.antt =====
-- The derived equality of commands.
use tmi_rs.Prelude.{
  ℕ, ◌==◌, ◌&&◌, Bool, true, false, ==_iff, ==_refl, ◌≡◌, ◌↔◌, refl, sym, ◌∙◌, List, [], ◌∷◌,
  Option, none, some, get_elem?,
}
use tmi_rs.Str.{Str}
use tmi_rs.Str.Laws as Texts
use tmi_rs.Irc.Command.{Command, eq, variant, payload}

-- The commands without a text, in the order of their variants.
abbrev plain : List Command
plain =
    Command.ping ∷ Command.pong ∷ Command.join ∷ Command.part ∷ Command.privmsg ∷ Command.whisper
    ∷ Command.clear_chat ∷ Command.clear_msg ∷ Command.global_user_state ∷ Command.notice
    ∷ Command.reconnect ∷ Command.room_state ∷ Command.user_notice ∷ Command.user_state
    ∷ Command.capability ∷ Command.rpl_welcome ∷ Command.rpl_your_host ∷ Command.rpl_created
    ∷ Command.rpl_my_info ∷ Command.rpl_names ∷ Command.rpl_end_of_names ∷ Command.rpl_motd
    ∷ Command.rpl_motd_start ∷ Command.rpl_end_of_motd ∷ []

of_option : Option Command → Str → Command
of_option none s = Command.other s
of_option (some c) s = c

-- The command with this variant and this text.
of_variant : ℕ → Str → Command
unfolding of_option
of_variant n s = of_option (get_elem? plain n) s

of_variant_lem : (c : Command) → of_variant (variant c) (payload c) ≡ c
unfolding of_variant variant payload
of_variant_lem Command.ping = refl
of_variant_lem Command.pong = refl
of_variant_lem Command.join = refl
of_variant_lem Command.part = refl
of_variant_lem Command.privmsg = refl
of_variant_lem Command.whisper = refl
of_variant_lem Command.clear_chat = refl
of_variant_lem Command.clear_msg = refl
of_variant_lem Command.global_user_state = refl
of_variant_lem Command.notice = refl
of_variant_lem Command.reconnect = refl
of_variant_lem Command.room_state = refl
of_variant_lem Command.user_notice = refl
of_variant_lem Command.user_state = refl
of_variant_lem Command.capability = refl
of_variant_lem Command.rpl_welcome = refl
of_variant_lem Command.rpl_your_host = refl
of_variant_lem Command.rpl_created = refl
of_variant_lem Command.rpl_my_info = refl
of_variant_lem Command.rpl_names = refl
of_variant_lem Command.rpl_end_of_names = refl
of_variant_lem Command.rpl_motd = refl
of_variant_lem Command.rpl_motd_start = refl
of_variant_lem Command.rpl_end_of_motd = refl
of_variant_lem (Command.other cmd) = refl

and-true : (a b : Bool) → a && b ≡ true → (a ≡ true) × (b ≡ true)
and-true true b h = (refl, h)
and-true false b h = cc

-- Two commands compare as equal exactly when they are the same command.
pub eq_iff : (a b : Command) → (eq a b ≡ true) ↔ (a ≡ b)
unfolding eq
eq_iff a b = (
  λ h.
      let (same, texts) = and-true (variant a == variant b) _ h in
      let variants : variant a ≡ variant b = (==_iff (variant a) (variant b)).0 same in
      let payloads : payload a ≡ payload b = (Texts.eq_iff (payload a) (payload b)).0 texts in
      sym (of_variant_lem a) ∙ rw (variants, payloads) (of_variant_lem b),
  λ e. rw (e, ==_refl (variant b), Texts.eq_self (payload b)) refl,
)
