-- ===== src/Msg/PinnedChat.antt =====
-- msg/privmsg.rs: a message that its sender paid to pin.
pub mod Levels
use tmi_rs.Prelude.{
  ℕ, Bool, ◌||◌, List, [], ◌∷◌, Option, none, some, ltb, get_elem?, if◌then◌else◌, done,
}
use tmi_rs.Prelude.Int.{ℤ}
use tmi_rs.Str.{Str, codes, lookup}
use tmi_rs.Str.Numbers.{parse_i64}
use tmi_rs.Irc.Tag as TagNames
use tmi_rs.Irc.Message
use tmi_rs.Irc.Message.{IrcMessage}
use tmi_rs.Msg.Attempt.{Attempt, ◌>>=◌, ret}
use tmi_rs.Msg.Fields.{parse_bool, number_of}

pub data PinnedChatLevel : Type 0 where
  one two three four five : PinnedChatLevel
  six seven eight nine ten : PinnedChatLevel

unfoldable pub as_str : PinnedChatLevel → Str
as_str one = codes "ONE"
as_str two = codes "TWO"
as_str three = codes "THREE"
as_str four = codes "FOUR"
as_str five = codes "FIVE"
as_str six = codes "SIX"
as_str seven = codes "SEVEN"
as_str eight = codes "EIGHT"
as_str nine = codes "NINE"
as_str ten = codes "TEN"

-- `level as u8`: the variants are numbered from 0.
unfoldable pub to_u8 : PinnedChatLevel → ℕ
to_u8 one = 0
to_u8 two = 1
to_u8 three = 2
to_u8 four = 3
to_u8 five = 4
to_u8 six = 5
to_u8 seven = 6
to_u8 eight = 7
to_u8 nine = 8
to_u8 ten = 9

-- The variants in the order of their numbers.
abbrev pub variants : List PinnedChatLevel
variants = one ∷ two ∷ three ∷ four ∷ five ∷ six ∷ seven ∷ eight ∷ nine ∷ ten ∷ []

-- `TryFrom<u8>`: the number is checked, and then it is taken for the variant.
unfoldable pub try_from : ℕ → Option PinnedChatLevel
unfolding to_u8
try_from value =
    if ltb value (to_u8 one) || ltb (to_u8 ten) value then none else get_elem? variants value

-- The arms of `from_str`.
abbrev pub level_arms : List (Str × PinnedChatLevel)
level_arms =
    (codes "ONE", one)
    ∷ (codes "TWO", two)
    ∷ (codes "THREE", three)
    ∷ (codes "FOUR", four)
    ∷ (codes "FIVE", five)
    ∷ (codes "SIX", six)
    ∷ (codes "SEVEN", seven)
    ∷ (codes "EIGHT", eight)
    ∷ (codes "NINE", nine)
    ∷ (codes "TEN", ten)
    ∷ []

-- `FromStr`
unfoldable pub from_str : Str → Option PinnedChatLevel
from_str s = lookup s level_arms

pub record PinnedChat : Type 0 where
  pub paid_amount : ℤ
  pub paid_currency : Str
  pub paid_exponent : ℤ
  pub paid_level : PinnedChatLevel
  pub is_system_message : Bool

-- What `parse` does with the tags of a pinned chat.
unfoldable pub pinned_chat_of : IrcMessage → Attempt PinnedChat
pinned_chat_of m = do
  paid_amount ← number_of parse_i64 m TagNames.pinned_chat_paid_amount
  paid_currency ← Message.tag m TagNames.pinned_chat_paid_currency
  paid_exponent ← number_of parse_i64 m TagNames.pinned_chat_paid_exponent
  paid_level ← number_of from_str m TagNames.pinned_chat_paid_level
  system ← Message.tag m TagNames.pinned_chat_paid_is_system_message
  ret (record {
    paid_amount = paid_amount;
    paid_currency = paid_currency;
    paid_exponent = paid_exponent;
    paid_level = paid_level;
    is_system_message = parse_bool system;
  })
