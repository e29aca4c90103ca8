-- ===== src/Msg/Event/Anonymous.antt =====
-- Which events have an anonymous sender.
use tmi_rs.Prelude.{
  Bool, true, false, ◌||◌, Option, none, some, List, [], ◌∷◌, ◌≡◌, refl, sym, ap, subst, ◌∙◌, map,
  All, Option-cases, Bool-cases, inl, inr,
}
use tmi_rs.Str.{Str, codes, eq, lookup}
use tmi_rs.Str.Laws.{lookup-eq-some}
use tmi_rs.Irc.Message.{IrcMessage}
use tmi_rs.Msg.Attempt.{Attempt}
use tmi_rs.Msg.Attempt.Laws.{Gives, Gives-ret, gives_rules}
use tmi_rs.Msg.Badge.{unwrap_or}
use tmi_rs.Msg.Event.{
  Event, unknown, is_anonymous_gifter, sub_arm, raid_arm, sub_gift_arm, anon_sub_mystery_gift_arm,
  sub_mystery_gift_arm, gift_paid_upgrade_arm, anon_gift_paid_upgrade_arm, ritual_arm,
  bits_badge_tier_arm, announcement_arm, event_arms, event_of,
}

-- Whether the sender of an event is anonymous. A gift with a sender is if Twitch's account for
-- anonymous gifts sends it, and an event that is not known always is.
abbrev pub senders : Option Str → List (Str × Bool)
senders sender_id =
    (codes "sub", false)
    ∷ (codes "resub", false)
    ∷ (codes "raid", false)
    ∷ (codes "subgift", is_anonymous_gifter sender_id)
    ∷ (codes "anonsubgift", true)
    ∷ (codes "anonsubmysterygift", true)
    ∷ (codes "submysterygift", is_anonymous_gifter sender_id)
    ∷ (codes "giftpaidupgrade", false)
    ∷ (codes "anongiftpaidupgrade", true)
    ∷ (codes "ritual", false)
    ∷ (codes "bitsbadgetier", false)
    ∷ (codes "announcement", false)
    ∷ []

pub is_anonymous : Str → Option Str → Bool
is_anonymous event_id sender_id = unwrap_or true (lookup event_id (senders sender_id))

-- An arm gives this flag.
abbrev Flag : Bool → Attempt (Event × Bool) → Type 0
Flag b = Gives (λ x. x.1 ≡ b)

sub_arm-Flag : (m : IrcMessage) (event_id : Str) → Flag false (sub_arm m event_id)
unfolding sub_arm
sub_arm-Flag m event_id = search gives_rules depth 30

raid_arm-Flag : (m : IrcMessage) → Flag false (raid_arm m)
unfolding raid_arm
raid_arm-Flag m = search gives_rules depth 30

sub_gift_arm-Flag :
    (m : IrcMessage) (event_id : Str) (sender_id : Option Str)
    → Flag
        (eq event_id (codes "anonsubgift") || is_anonymous_gifter sender_id)
        (sub_gift_arm m event_id sender_id)
unfolding sub_gift_arm
sub_gift_arm-Flag m event_id sender_id = search gives_rules depth 30

anon_sub_mystery_gift_arm-Flag : (m : IrcMessage) → Flag true (anon_sub_mystery_gift_arm m)
unfolding anon_sub_mystery_gift_arm
anon_sub_mystery_gift_arm-Flag m = search gives_rules depth 30

sub_mystery_gift_arm-Flag :
    (m : IrcMessage) (sender_id : Option Str)
    → Flag (is_anonymous_gifter sender_id) (sub_mystery_gift_arm m sender_id)
unfolding sub_mystery_gift_arm
sub_mystery_gift_arm-Flag m sender_id = elim (Bool-cases (is_anonymous_gifter sender_id)) [
  | inl anon ↦ rw anon (anon_sub_mystery_gift_arm-Flag m)
  | inr named ↦ rw named (search gives_rules depth 30)
]

gift_paid_upgrade_arm-Flag : (m : IrcMessage) → Flag false (gift_paid_upgrade_arm m)
unfolding gift_paid_upgrade_arm
gift_paid_upgrade_arm-Flag m = search gives_rules depth 30

anon_gift_paid_upgrade_arm-Flag : (m : IrcMessage) → Flag true (anon_gift_paid_upgrade_arm m)
unfolding anon_gift_paid_upgrade_arm
anon_gift_paid_upgrade_arm-Flag m = search gives_rules depth 30

ritual_arm-Flag : (m : IrcMessage) → Flag false (ritual_arm m)
unfolding ritual_arm
ritual_arm-Flag m = search gives_rules depth 30

bits_badge_tier_arm-Flag : (m : IrcMessage) → Flag false (bits_badge_tier_arm m)
unfolding bits_badge_tier_arm
bits_badge_tier_arm-Flag m = search gives_rules depth 30

announcement_arm-Flag : (m : IrcMessage) → Flag false (announcement_arm m)
unfolding announcement_arm
announcement_arm-Flag m = search gives_rules depth 30

-- Each arm gives the flag of its name.
arms_flagged :
    (m : IrcMessage) (event_id : Str) (sender_id : Option Str)
    → All
        (λ arm. event_id ≡ arm.0 → Flag (is_anonymous arm.0 sender_id) arm.1)
        (event_arms m event_id sender_id)
unfolding event_arms is_anonymous lookup eq
arms_flagged m event_id sender_id = (
  (λ e. sub_arm-Flag m event_id),
  (
    (λ e. sub_arm-Flag m event_id),
    (
      (λ e. raid_arm-Flag m),
      (
        (λ e.
            subst
              (λ id.
                Flag (eq id (codes "anonsubgift") || is_anonymous_gifter sender_id)
                  (sub_gift_arm m event_id sender_id))
              e (sub_gift_arm-Flag m event_id sender_id)),
        (
          (λ e.
              subst
                (λ id.
                  Flag (eq id (codes "anonsubgift") || is_anonymous_gifter sender_id)
                    (sub_gift_arm m event_id sender_id))
                e (sub_gift_arm-Flag m event_id sender_id)),
          (
            (λ e. anon_sub_mystery_gift_arm-Flag m),
            (
              (λ e. sub_mystery_gift_arm-Flag m sender_id),
              (
                (λ e. gift_paid_upgrade_arm-Flag m),
                (
                  (λ e. anon_gift_paid_upgrade_arm-Flag m),
                  (
                    (λ e. ritual_arm-Flag m),
                    ((λ e. bits_badge_tier_arm-Flag m), ((λ e. announcement_arm-Flag m), tt)),
                  ),
                ),
              ),
            ),
          ),
        ),
      ),
    ),
  ),
)

lookup-miss :
    {A B : Type 0} (s : Str) (xs : List (Str × A)) (ys : List (Str × B))
    → map (λ x. x.0) xs ≡ map (λ y. y.0) ys
    → lookup s xs ≡ none
    → lookup s ys ≡ none
unfolding lookup
lookup-miss s [] [] e miss = refl
lookup-miss s [] (y ∷ ys) e miss = cc
lookup-miss s (x ∷ xs) [] e miss = cc
lookup-miss s ((k, a) ∷ xs) ((l, b) ∷ ys) e miss = elim (Bool-cases (eq s k)) [
  | inl hit ↦ let bad : some a ≡ none = rw hit at miss in cc
  | inr other ↦
      let same : k ≡ l = cc in
      let names : map (λ x. x.0) xs ≡ map (λ y. y.0) ys = cc in
      let other' : eq s l ≡ false = sym (ap (eq s) same) ∙ other in
      rw other' (lookup-miss s xs ys names (rw other at miss))
]

miss-is_anonymous :
    (m : IrcMessage) (event_id : Str) (sender_id : Option Str)
    → lookup event_id (event_arms m event_id sender_id) ≡ none
    → is_anonymous event_id sender_id ≡ true
unfolding event_arms is_anonymous
miss-is_anonymous m event_id sender_id miss =
    rw (lookup-miss event_id (event_arms m event_id sender_id) (senders sender_id) refl miss) refl

-- The flag that comes with the event tells whether its sender is anonymous.
pub event_of-is_anonymous :
    (m : IrcMessage) (event_id : Str) (sender_id : Option Str)
    → Gives (λ x. x.1 ≡ is_anonymous event_id sender_id) (event_of m event_id sender_id)
unfolding event_of
event_of-is_anonymous m event_id sender_id =
    elim (Option-cases (lookup event_id (event_arms m event_id sender_id))) [
      | inl miss ↦
          rw miss (Gives-ret (unknown, true) (sym (miss-is_anonymous m event_id sender_id miss)))
      | inr (arm, hit) ↦ rw hit (
          lookup-eq-some (λ key arm. event_id ≡ key → Flag (is_anonymous key sender_id) arm)
            event_id (event_arms m event_id sender_id) (arms_flagged m event_id sender_id) hit refl)
    ]
