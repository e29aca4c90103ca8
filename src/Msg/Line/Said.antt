-- ===== src/Msg/Line/Said.antt =====
-- msg/privmsg.rs, msg/clear_msg.rs and msg/user_notice.rs: what a text and the tags of an event say
-- of actions, months, promotions and anonymous gifts.
use tmi_rs.Prelude.{
  ℕ, ◌<◌, Bool, true, false, ◌||◌, Bool-cases, inl, inr, List, Option, none, some, bind?, ◌≡◌, ◌≢◌,
  refl, ap, ◌∙◌, ltb-true,
}
use tmi_rs.Str.{Str, codes, eq}
use tmi_rs.Str.Laws.{eq_iff, eq_self}
use tmi_rs.Str.Numbers.{parse_u64}
use tmi_rs.Irc.Message.Lookup.{first_value}
use tmi_rs.Msg.Event.{SubGiftPromo, promotion, if_positive, is_anonymous_gifter}
use tmi_rs.Msg.Fields.{parse_message_text, positive}
use tmi_rs.Msg.Fields.Laws.{action, parse_message_text_iff}

-- A text that is an action, or one that is none.
pub data SaysText : Str → Str → Bool → Type 0 where
  acts : (text : Str) → SaysText (action text) text true
  speaks : (input : Str) → ((text : Str) → input ≢ action text) → SaysText input input false

speaks-parse_message_text :
    (input text : Str) (b : Bool)
    → ((t : Str) → input ≢ action t)
    → parse_message_text input ≡ (text, b)
    → parse_message_text input ≡ (input, false)
speaks-parse_message_text input text true no_action e =
    absurd (no_action text ((parse_message_text_iff input text).0.0 e))
speaks-parse_message_text input text false no_action e =
    let same = (parse_message_text_iff input text).1 e in e ∙ ap (λ t. (t, false)) same

pub parse_message_text-SaysText :
    (input text : Str) (is_action : Bool)
    → SaysText input text is_action
    → parse_message_text input ≡ (text, is_action)
parse_message_text-SaysText _ _ _ (acts text) = (parse_message_text_iff (action text) text).0.1 refl
parse_message_text-SaysText _ _ _ (speaks input no_action) =
    speaks-parse_message_text input (parse_message_text input).0 (parse_message_text input).1
      no_action refl

-- The user that Twitch names where a gift is anonymous.
abbrev pub FromGifter : List (Str × Str) → Type 0
FromGifter tags = first_value (codes "user-id") tags ≡ some (codes "274598607")

pub is_anonymous_gifter-FromGifter :
    (tags : List (Str × Str))
    → FromGifter tags
    → is_anonymous_gifter (first_value (codes "user-id") tags) ≡ true
unfolding is_anonymous_gifter
is_anonymous_gifter-FromGifter tags e = rw e (eq_self (codes "274598607"))

is_anonymous_gifter-none :
    (o : Option Str) → (o ≢ some (codes "274598607")) → is_anonymous_gifter o ≡ false
unfolding is_anonymous_gifter
is_anonymous_gifter-none none ne = refl
is_anonymous_gifter-none (some s) ne = elim (Bool-cases (eq s (codes "274598607"))) [
  | inl hit ↦ absurd (ne (ap (λ t. some t) ((eq_iff s (codes "274598607")).0 hit)))
  | inr miss ↦ miss
]

pub is_anonymous_gifter-FromUser :
    (tags : List (Str × Str))
    → ¬ FromGifter tags
    → is_anonymous_gifter (first_value (codes "user-id") tags) ≡ false
is_anonymous_gifter-FromUser tags ne =
    is_anonymous_gifter-none (first_value (codes "user-id") tags) ne

-- A gift is anonymous by its event or by its giver.
pub data IsGiven (tags : List (Str × Str)) : Bool → Bool → Type 0 where
  by_event : IsGiven tags true true
  by_gifter : FromGifter tags → IsGiven tags false true
  openly : ¬ FromGifter tags → IsGiven tags false false

pub is_anonymous_gifter-IsGiven :
    (tags : List (Str × Str)) (anonymously anon : Bool)
    → IsGiven tags anonymously anon
    → (anonymously || is_anonymous_gifter (first_value (codes "user-id") tags)) ≡ anon
is_anonymous_gifter-IsGiven tags _ _ by_event = refl
is_anonymous_gifter-IsGiven tags _ _ (by_gifter e) = is_anonymous_gifter-FromGifter tags e
is_anonymous_gifter-IsGiven tags _ _ (openly ne) = is_anonymous_gifter-FromUser tags ne

-- A streak of months is the number of its tag, if it is not 0.
pub data HasStreak (tags : List (Str × Str)) : Option ℕ → Type 0 where
  no_months :
      bind? (first_value (codes "msg-param-streak-months") tags) parse_u64 ≡ none
      → HasStreak tags none
  zero_months :
      bind? (first_value (codes "msg-param-streak-months") tags) parse_u64 ≡ some 0
      → HasStreak tags none
  some_months :
      (months : ℕ)
      → bind? (first_value (codes "msg-param-streak-months") tags) parse_u64 ≡ some months
      → 0 < months
      → HasStreak tags (some months)

pub if_positive-HasStreak :
    (tags : List (Str × Str)) (streak : Option ℕ)
    → HasStreak tags streak
    → bind? (bind? (first_value (codes "msg-param-streak-months") tags) parse_u64) if_positive
      ≡ streak
unfolding if_positive positive
if_positive-HasStreak tags _ (no_months e) = rw e refl
if_positive-HasStreak tags _ (zero_months e) = rw e refl
if_positive-HasStreak tags _ (some_months n e h) = rw (e, ltb-true 0 n h) refl

-- The promotion of an upgrade, if both of its tags are there.
abbrev pub promo : List (Str × Str) → Option SubGiftPromo
promo tags =
    bind? (bind? (first_value (codes "msg-param-promo-gift-total") tags) parse_u64) λ total.
      bind? (first_value (codes "msg-param-promo-name") tags)
        λ name. some (record { total_gifts = total; promo_name = name })

promotion-both :
    (total : Option ℕ) (name : Option Str)
    → promotion total name
      ≡ bind? total (λ t. bind? name (λ n. some (record { total_gifts = t; promo_name = n })))
unfolding promotion
promotion-both none name = refl
promotion-both (some t) none = refl
promotion-both (some t) (some n) = refl

pub promotion-promo :
    (tags : List (Str × Str))
    → promotion
        (bind? (first_value (codes "msg-param-promo-gift-total") tags) parse_u64)
        (first_value (codes "msg-param-promo-name") tags)
      ≡ promo tags
promotion-promo tags =
    promotion-both (bind? (first_value (codes "msg-param-promo-gift-total") tags) parse_u64)
      (first_value (codes "msg-param-promo-name") tags)
