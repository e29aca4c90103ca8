-- ===== src/Msg/Badge/Listed/Made.antt =====
-- The badge that is made, against what its name, version and detail say.
use tmi_rs.Prelude.{
  ℕ, Option, none, some, bind?, ◌≡◌, inl, inr, refl, sym, Bool-cases, Option-cases,
}
use tmi_rs.Str.{Str, codes, eq, lookup}
use tmi_rs.Str.Laws.{eq_iff}
use tmi_rs.Str.Numbers.{parse_u64}
use tmi_rs.Str.Numbers.Laws.{parse_unsigned_iff}
use tmi_rs.Msg.Badge.{Badge, subscriber, unwrap_or, to_badge}
use tmi_rs.Msg.Badge.Listed.{
  AreMonths, IsBadge, is_staff, is_turbo, is_broadcaster, is_moderator, is_subscriber, is_other,
}
use tmi_rs.Msg.Badge.Listed.Details.{eq-ne, ne_of_eq}

-- The months that are read.
to_subscriber-AreMonths :
    (detail : Option Str)
    → AreMonths detail (unwrap_or (codes "1") detail) (unwrap_or 1 (bind? detail parse_u64))
to_subscriber-AreMonths none = (refl, refl)
to_subscriber-AreMonths (some s) = elim (Option-cases (parse_u64 s)) [
  | inl miss ↦
      rw miss (refl, inr ((λ k reads. let bad = (parse_unsigned_iff 64 k s).1 reads in cc), refl))
  | inr (n, hit) ↦ rw hit (refl, inl ((parse_unsigned_iff 64 n s).0 hit))
]

AreMonths-to_subscriber :
    (detail : Option Str) (months : Str) (n : ℕ)
    → AreMonths detail months n
    → (unwrap_or (codes "1") detail ≡ months) × (unwrap_or 1 (bind? detail parse_u64) ≡ n)
AreMonths-to_subscriber none months n (e, e') = (sym e, sym e')
AreMonths-to_subscriber (some s) months n (e, inl reads) =
    (sym e, rw ((parse_unsigned_iff 64 n s).1 reads) refl)
AreMonths-to_subscriber (some s) months n (e, inr (unread, e')) = (
  sym e,
  elim (Option-cases (parse_u64 s)) [
    | inl miss ↦ rw miss (sym e')
    | inr (k, hit) ↦ absurd (unread k ((parse_unsigned_iff 64 k s).0 hit))
  ],
)

-- The badge that is made.
unfoldable pub made : Str → Str → Option Str → Badge
made name version detail = to_badge (record { name = name; version = version; extra = detail })

pub made-IsBadge :
    (name version : Str) (detail : Option Str)
    → IsBadge name version detail (made name version detail)
unfolding made to_badge lookup
made-IsBadge name version detail = elim (Bool-cases (eq name (codes "staff"))) [
  | inl hit ↦ rw hit (is_staff ((eq_iff _ _).0 hit))
  | inr no_staff ↦ rw no_staff (elim (Bool-cases (eq name (codes "turbo"))) [
    | inl hit ↦ rw hit (is_turbo ((eq_iff _ _).0 hit))
    | inr no_turbo ↦ rw no_turbo (elim (Bool-cases (eq name (codes "broadcaster"))) [
      | inl hit ↦ rw hit (is_broadcaster ((eq_iff _ _).0 hit))
      | inr no_broadcaster ↦ rw no_broadcaster (elim (Bool-cases (eq name (codes "moderator"))) [
        | inl hit ↦ rw hit (is_moderator ((eq_iff _ _).0 hit))
        | inr no_moderator ↦ rw no_moderator (elim (Bool-cases (eq name (codes "subscriber"))) [
          | inl hit ↦
              rw hit (is_subscriber _ _ ((eq_iff _ _).0 hit) (to_subscriber-AreMonths detail))
          | inr no_subscriber ↦ rw no_subscriber (
              is_other (ne_of_eq _ _ no_staff) (ne_of_eq _ _ no_turbo) (ne_of_eq _ _ no_broadcaster)
                (ne_of_eq _ _ no_moderator) (ne_of_eq _ _ no_subscriber))
        ])
      ])
    ])
  ])
]

subscriber_with :
    (version months months' : Str) (n n' : ℕ)
    → months ≡ months'
    → n ≡ n'
    → subscriber (record { version = version; months = months; months_n = n })
      ≡ subscriber (record { version = version; months = months'; months_n = n' })
subscriber_with version months months' n n' e e' = rw (e, e') refl

-- No other badge has this name, version and detail.
pub IsBadge-made :
    (name version : Str) (detail : Option Str) (badge : Badge)
    → IsBadge name version detail badge
    → made name version detail ≡ badge
unfolding made to_badge lookup eq
IsBadge-made name version detail badge (is_staff e) = rw e refl
IsBadge-made name version detail badge (is_turbo e) = rw e refl
IsBadge-made name version detail badge (is_broadcaster e) = rw e refl
IsBadge-made name version detail badge (is_moderator e) = rw e refl
IsBadge-made name version detail badge (is_subscriber months n e are) =
    let (e', e'') = AreMonths-to_subscriber detail months n are in
    rw e (subscriber_with version _ months _ n e' e'')
IsBadge-made name version detail badge
      (is_other no_staff no_turbo no_broadcaster no_moderator no_subscriber) =
    rw
      (
        eq-ne _ _ no_staff,
        eq-ne _ _ no_turbo,
        eq-ne _ _ no_broadcaster,
        eq-ne _ _ no_moderator,
        eq-ne _ _ no_subscriber,
      )
      refl
