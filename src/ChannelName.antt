-- ===== src/ChannelName.antt =====
-- common/channel.rs: the borrowed and the owned name of a channel, which begin with a `#`.
use tmi_rs.Prelude.{Option, none, some, if◌then◌else◌, ◌≡◌, ◌↔◌, Bool-cases, inl, inr}
use tmi_rs.Str.{Str, codes, starts_with}

-- Each is a text, in a wrapper of its own.
record ChannelRef : Type 0 where
  text : Str

record Channel : Type 0 where
  text : Str

ref_from_unchecked : Str → ChannelRef
ref_from_unchecked s = record { text = s }

owned_from_unchecked : Str → Channel
owned_from_unchecked s = record { text = s }

-- `ChannelRef::parse`; `none` stands for `Err(InvalidChannelName)`.
parse_ref : Str → Option ChannelRef
unfolding ref_from_unchecked
parse_ref s = if starts_with (codes "#") s then some (ref_from_unchecked s) else none

-- `Channel::parse`
parse_owned : Str → Option Channel
parse_owned s = if starts_with (codes "#") s then some (record { text = s }) else none

-- `ToOwned for ChannelRef`
to_owned : ChannelRef → Channel
unfolding owned_from_unchecked
to_owned c = owned_from_unchecked c.text

-- `AsRef<ChannelRef> for Channel`, and `Borrow<ChannelRef>`
borrow : Channel → ChannelRef
unfolding ref_from_unchecked
borrow c = ref_from_unchecked c.text

-- Both parsers accept the same texts, and a borrowed name is owned as the same text.
parse_ref-parse_owned :
    (s : Str) (c : Channel) → (parse_owned s ≡ some c) ↔ (parse_ref s ≡ some (borrow c))
unfolding parse_ref parse_owned borrow ref_from_unchecked
parse_ref-parse_owned s c = elim (Bool-cases (starts_with (codes "#") s)) [
  | inl hash ↦ rw hash ((λ e. cc), (λ e. cc))
  | inr other ↦ rw other ((λ e. cc), (λ e. cc))
]
