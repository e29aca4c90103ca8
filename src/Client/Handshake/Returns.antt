-- ===== src/Client/Handshake/Returns.antt =====
-- `Client::recv` and `Client::handshake` with the vectorised tag parser, on lines as the server
-- sends them.
use tmi_rs.Prelude.{
  ℕ, ◌≤◌, ◌<◌, ◌^◌, [], ◌++◌, Option, none, some, ◌≡◌, refl, length, done, Returns, >>=-Returns,
}
use tmi_rs.Str.{Str}
use tmi_rs.Str.Boundary.{IsText}
use tmi_rs.Irc.Command.{Command}
use tmi_rs.Irc.Tags.{capacity}
use tmi_rs.Irc.Tags.Total.{count}
use tmi_rs.Irc.Wide.{Vector, IsVector}
use tmi_rs.Irc.Simd
use tmi_rs.Irc.Message
use tmi_rs.Irc.Message.{IrcMessage, TagParser}
use tmi_rs.Irc.Message.Bounds.{WellFormed}
use tmi_rs.Irc.Message.Bounds.Accessors.{command-Returns, params-Returns}
use tmi_rs.Irc.Message.Bounds.Parsed.{parse-WellFormed}
use tmi_rs.Irc.Message.Total as LineTotal
use tmi_rs.Client.Errors.{RecvError, Awaited, value, error, elapsed, Connected, ok, failed}
use tmi_rs.Client.Handshake.{
  Client, Connection, parsed_or, receive, recv, welcome_for, check_welcome, acknowledged_by,
  check_acknowledged, after_acknowledged, after_flush, after_write, handshake, login_text,
}

-- A text within the bounds of the parser: shorter than 2 ^ 16 bytes, with at most 128 equals signs.
pub record IsShort (line : Str) : Type 0 where
  pub text : IsText line
  pub short : length line < 2 ^ 16
  pub few : count b'=' line ≤ capacity

-- All that the reader gives is such a text, if it gives a text.
abbrev pub ShortLines : {E R W : Type 0} → Connection E R W → Type 0
ShortLines {R = R} net =
    (reader : R) (line : Str) → (net.next_line reader).1 ≡ value (some line) → IsShort line

-- Each line stands at an address of its own.
abbrev pub parser_at : Vector → (Str → ℕ) → TagParser
parser_at v addr src pos = Simd.parse v (addr src) src pos

-- A message that was given is well-formed.
abbrev pub IsReceived : {E : Type 0} → Awaited (RecvError E) IrcMessage → Type 0
IsReceived (value m) = WellFormed m
IsReceived (error e) = Unit
IsReceived elapsed = Unit

module _ (v : Vector) (law : IsVector v) (addr : Str → ℕ) where
  line-Returns : (line : Str) → IsShort line → Returns (Message.parse (parser_at v addr) line)
  unfolding Message.parse
  line-Returns line h = LineTotal.parse-Returns v law (addr line) line h.text h.few

  line-WellFormed :
      (line : Str) (m : IrcMessage)
      → IsShort line
      → Message.parse (parser_at v addr) line ≡ done (some m)
      → WellFormed m
  unfolding Message.parse
  line-WellFormed line m h e = parse-WellFormed line h.text h.short v law (addr line) m e

  receive-IsReceived :
      {E : Type 0} (given : Awaited E (Option Str))
      → ((line : Str) → given ≡ value (some line) → IsShort line)
      → (message : Awaited (RecvError E) IrcMessage) × (receive (parser_at v addr) given
          ≡ done message)
        × IsReceived message
  unfolding receive parsed_or
  receive-IsReceived (value none) h = (error RecvError.stream_closed, refl, tt)
  receive-IsReceived (error e) h = (error (RecvError.io e), refl, tt)
  receive-IsReceived elapsed h = (elapsed, refl, tt)
  receive-IsReceived {E} (value (some line)) h =
      let (found, e) = line-Returns line (h line refl) in parsed found e
    where
      parsed :
          (found : Option IrcMessage)
          → Message.parse (parser_at v addr) line ≡ done found
          → (message : Awaited (RecvError E) IrcMessage) × (receive
                (parser_at v addr)
                (value (some line))
              ≡ done message)
            × IsReceived message
      parsed none e = (error (RecvError.parse line), rw e refl, tt)
      parsed (some m) e = (value m, rw e refl, line-WellFormed line m (h line refl) e)

  module _ {E R W : Type 0} (net : Connection E R W) (lines : ShortLines net) where
    -- What `recv` gives is a well-formed message, an error or nothing in time, and only the reader
    -- moves.
    pub recv-IsReceived :
        (client : Client R W)
        → (message : Awaited (RecvError E) IrcMessage) × (recv (parser_at v addr) net client
            ≡ done (record client { reader = (net.next_line client.reader).0 }, message))
          × IsReceived message
    unfolding recv
    recv-IsReceived client =
        let (message, e, received) =
          receive-IsReceived (net.next_line client.reader).1 (lines client.reader) in
        (message, rw e refl, received)

    module _ {D T : Type 0} where
      welcome_for-Returns :
          (m : IrcMessage) (c : Command)
          → WellFormed m
          → Returns (welcome_for {E = E} {D = D} {T = T} m c)
      unfolding welcome_for
      welcome_for-Returns m Command.rpl_welcome h = (ok, refl)
      welcome_for-Returns m Command.notice h =
          >>=-Returns (Message.params m) _ (params-Returns m h) λ params e. (_, refl)
      welcome_for-Returns m _ h = (_, refl)

      check_welcome-Returns :
          (message : Awaited (RecvError E) IrcMessage)
          → IsReceived message
          → Returns (check_welcome {E = E} {D = D} {T = T} message)
      unfolding check_welcome
      check_welcome-Returns (value m) h =
          >>=-Returns (Message.command m) _ (command-Returns m h) λ c e. welcome_for-Returns m c h
      check_welcome-Returns (error e) h = (_, refl)
      check_welcome-Returns elapsed h = (_, refl)

      acknowledged_by-Returns :
          (m : IrcMessage) (c : Command)
          → WellFormed m
          → Returns (acknowledged_by {E = E} {D = D} {T = T} m c)
      unfolding acknowledged_by
      acknowledged_by-Returns m Command.capability h =
          >>=-Returns (Message.params m) _ (params-Returns m h) λ params e. (_, refl)
      acknowledged_by-Returns m _ h = (_, refl)

      check_acknowledged-Returns :
          (message : Awaited (RecvError E) IrcMessage)
          → IsReceived message
          → Returns (check_acknowledged {E = E} {D = D} {T = T} message)
      unfolding check_acknowledged
      check_acknowledged-Returns (value m) h =
          >>=-Returns (Message.command m) _ (command-Returns m h)
            λ c e. acknowledged_by-Returns m c h
      check_acknowledged-Returns (error e) h = (_, refl)
      check_acknowledged-Returns elapsed h = (_, refl)

      after_acknowledged-Returns :
          (client : Client R W) (reply : Connected E D T)
          → Returns (after_acknowledged (parser_at v addr) net client reply)
      unfolding after_acknowledged
      after_acknowledged-Returns client (failed e) = (_, refl)
      after_acknowledged-Returns client ok =
          let (message, e, received) = recv-IsReceived client in
          rw e (
            >>=-Returns (check_welcome message) _ (check_welcome-Returns message received)
              λ reply _. (_, refl))

      after_flush-Returns :
          (client : Client R W) (flushed : Awaited E (Unit {0}))
          → Returns {A = Client R W × Connected E D T}
              (after_flush (parser_at v addr) net client flushed)
      unfolding after_flush
      after_flush-Returns client (error e) = (_, refl)
      after_flush-Returns client elapsed = (_, refl)
      after_flush-Returns client (value u) =
          let (message, e, received) = recv-IsReceived (record client { scratch = [] }) in
          let (reply, e') = check_acknowledged-Returns message received in
          rw (e, e') (after_acknowledged-Returns _ reply)

      after_write-Returns :
          (client : Client R W) (written : Awaited E (Unit {0}))
          → Returns {A = Client R W × Connected E D T}
              (after_write (parser_at v addr) net client written)
      unfolding after_write
      after_write-Returns client (error e) = (_, refl)
      after_write-Returns client elapsed = (_, refl)
      after_write-Returns client (value u) = after_flush-Returns _ (net.flush client.writer).1

      -- A handshake returns: it neither panics nor runs on, whatever the server answers in lines
      -- within the bounds of the parser.
      pub handshake-Returns :
          (client : Client R W)
          → Returns {A = Client R W × Connected E D T} (handshake (parser_at v addr) net client)
      unfolding handshake
      handshake-Returns client =
          after_write-Returns _
            (net.write_all client.writer (client.scratch ++ login_text client.credentials)).1
