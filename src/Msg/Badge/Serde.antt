-- ===== src/Msg/Badge/Serde.antt =====
-- msg.rs: `Subscriber` in serde's formats. A format keeps the fields that it is given; `months_n` is
-- not written, and is read from the months again.
use tmi_rs.Prelude.{ℕ, Option, none, some, bind?, IfSome, ◌≡◌, refl, ◌⊎◌, inl, inr, Option-cases}
use tmi_rs.Str.{Str}
use tmi_rs.Str.Numbers.{parse_u64, parse_unsigned, magnitude, digits}
use tmi_rs.Msg.Badge.{Subscriber, BadgeData, to_subscriber}

-- The fields that are written: those of `_T`.
pub record Stored : Type 0 where
  pub version : Str
  pub months : Str

-- The derived `Serialize`.
pub serialize : Subscriber → Stored
serialize s = record { version = s.version; months = s.months }

-- `Deserialize for Subscriber`; `none` stands for the custom error.
pub deserialize : Stored → Option Subscriber
deserialize t =
    bind? (parse_u64 t.months)
      λ months_n. some (record { version = t.version; months = t.months; months_n = months_n })

-- A number of months, if there are any.
abbrev pub HasMonths : Option Str → Type 0
HasMonths extra = IfSome (λ s. (n : ℕ) × (parse_u64 s ≡ some n)) extra

-- A subscriber badge that was made from its data is given back when it is written and read, if its
-- detail is missing or a number of 64 bits; with any other detail it can be written, and what is
-- written cannot be read.
pub deserialize-serialize :
    (d : BadgeData)
    → (HasMonths d.extra × (deserialize (serialize (to_subscriber d)) ≡ some (to_subscriber d)))
      ⊎ ((s : Str) × (d.extra ≡ some s)
          × (parse_u64 s ≡ none)
          × (deserialize (serialize (to_subscriber d)) ≡ none))
unfolding deserialize serialize to_subscriber parse_unsigned magnitude digits
deserialize-serialize d = by_detail d.extra refl
  where
    by_detail :
        (extra : Option Str)
        → d.extra ≡ extra
        → (HasMonths d.extra × (deserialize (serialize (to_subscriber d)) ≡ some (to_subscriber d)))
          ⊎ ((s : Str) × (d.extra ≡ some s)
              × (parse_u64 s ≡ none)
              × (deserialize (serialize (to_subscriber d)) ≡ none))
    by_detail none e = rw e (inl (tt, refl))
    by_detail (some s) e = elim (Option-cases (parse_u64 s)) [
      | inl bad ↦ rw e (inr (s, refl, bad, rw bad refl))
      | inr (n, good) ↦ rw e (inl ((n, good), rw good refl))
    ]
