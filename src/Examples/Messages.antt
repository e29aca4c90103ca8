-- ===== src/Examples/Messages.antt =====
-- Instances of the theorems on what a parsed message is asked for.
use tmi_rs.Prelude.{replicate, panicked, [], ◌∷◌, ◌≡◌, ◌⊎◌, refl, none, some, done}
use tmi_rs.Str.{Str, codes, slice, is_char_boundary, find}
use tmi_rs.Irc.Span as Spans
use tmi_rs.Irc.Span.{from}
use tmi_rs.Irc.Prefix as Prefixes
use tmi_rs.Irc.Command.{RawCommand}
use tmi_rs.Irc.Tag as TagNames
use tmi_rs.Irc.Tag.{id}
use tmi_rs.Irc.Tags
use tmi_rs.Irc.Tags.{tag_pair}
use tmi_rs.Irc.Message
use tmi_rs.Irc.Message.{IrcMessage}
use tmi_rs.Irc.Message.Lookup.{first_value, tag-tags, text_ref-text_owned}

abbrev message : IrcMessage
message = record {
  src = codes "@id=a;vip=1 PING x";
  parts = record {
    tags = tag_pair 0 2 4 ∷ tag_pair 5 8 10 ∷ [];
    prefix = none;
    command = RawCommand.ping;
    channel = none;
    params = some (from 17 18);
  };
}

message_tags : Message.tags message ≡ done ((codes "id", codes "a") ∷ (codes "vip", codes "1") ∷ [])
unfolding Message.tags Tags.collect Tags.get Tags.key Tags.value Spans.index Spans.from slice
    is_char_boundary
message_tags = refl

message_params : Message.params message ≡ done (some (codes "x"))
unfolding Message.params Prefixes.index_option Spans.index Spans.from slice is_char_boundary
message_params = refl

tag-tags_example :
    Message.tag message id
    ≡ done
        (first_value (TagNames.as_str id) ((codes "id", codes "a") ∷ (codes "vip", codes "1") ∷ []))
tag-tags_example =
    tag-tags message id ((codes "id", codes "a") ∷ (codes "vip", codes "1") ∷ []) message_tags

text_ref-text_owned_example :
    (Message.text_ref message ≡ Message.text_owned message)
    ⊎ ((p : Str) × (some (codes "x") ≡ some p)
        × (find p b':' ≡ none)
        × (Message.text_ref message ≡ done (some p))
        × (Message.text_owned message ≡ done none))
text_ref-text_owned_example = text_ref-text_owned message (some (codes "x")) message_params

-- One tag more than the array holds.
too_many_tags : Tags.push (replicate 128 (tag_pair 0 1 2)) (tag_pair 0 1 2) ≡ panicked
unfolding Tags.push
too_many_tags = refl
