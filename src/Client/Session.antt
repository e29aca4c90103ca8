-- ===== src/Client/Session.antt =====
-- client/read.rs and msg.rs: `Client::recv` and `IrcMessage::as_typed` on the lines that a server
-- sends one after another.
use tmi_rs.Prelude.{ℕ, List, [], ◌∷◌, Option, some, ◌≡◌, done}
use tmi_rs.Prelude.Int.{ℤ}
use tmi_rs.Str.{Str}
use tmi_rs.Irc.Wide.{Vector, IsVector}
use tmi_rs.Irc.Message as Lines
use tmi_rs.Irc.Message.{IrcMessage}
use tmi_rs.Irc.Message.Whole.{Whole, IsWhole, line}
use tmi_rs.Msg.Line.Anywhere.{MeansAnywhere}
use tmi_rs.Msg.Attempt.{Attempt}
use tmi_rs.Msg.Typed.{Message, from_irc}
use tmi_rs.Client.Errors.{value}
use tmi_rs.Client.Handshake.{Client, Connection, recv}
use tmi_rs.Client.Handshake.Returns.{parser_at}

module _ {Time : Type 0} (timestamp_millis : ℤ → Option Time) where
  -- `IrcMessage::as_typed`
  unfoldable pub as_typed : IrcMessage → Attempt (Message Time)
  as_typed m = from_irc timestamp_millis m

  module _ {E R W : Type 0} (net : Connection E R W) where
    -- The connection gives these lines one after another, each of which is within the bounds of
    -- `IsWhole` and means its message.
    abbrev pub Serves : R → List (Whole × Message Time) → R → Type 0
    Serves reader [] last = reader ≡ last
    Serves reader ((w, t) ∷ rest) last =
        (next : R) × (net.next_line reader ≡ (next, value (some (line w))))
        × IsWhole w
        × MeansAnywhere timestamp_millis w t
        × Serves next rest last

    module _ (v : Vector) (law : IsVector v) (addr : Str → ℕ) where
      -- `recv` gives one message after another, and `as_typed` of each is the next of the list.
      abbrev pub Receives : Client R W → List (Message Time) → Client R W → Type 0
      Receives client [] last = client ≡ last
      Receives client (t ∷ rest) last =
          (next : Client R W) × (m : IrcMessage) × (recv (parser_at v addr) net client
            ≡ done (next, value m))
          × (as_typed m ≡ done (some t))
          × Receives next rest last
