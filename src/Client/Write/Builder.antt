-- ===== src/Client/Write/Builder.antt =====
-- client/write.rs: `Client::privmsg` and the methods of `Privmsg` that set its properties.
use tmi_rs.Prelude.{Option, none, some}
use tmi_rs.Str.{Str}
use tmi_rs.Client.Write.{Privmsg}

-- `Client::privmsg`
unfoldable pub privmsg : Str → Str → Privmsg
privmsg channel text = record {
  channel = channel;
  text = text;
  reply_parent_msg_id = none;
  client_nonce = none;
}

unfoldable pub reply_to : Privmsg → Str → Privmsg
reply_to p reply_parent_msg_id = record p { reply_parent_msg_id = some reply_parent_msg_id }

unfoldable pub client_nonce : Privmsg → Str → Privmsg
client_nonce p value = record p { client_nonce = some value }

-- A method called with an argument, if there is one.
abbrev pub called : (Privmsg → Str → Privmsg) → Option Str → Privmsg → Privmsg
called method none p = p
called method (some s) p = method p s

-- A message with the properties that are given.
abbrev pub built : Str → Str → Option Str → Option Str → Privmsg
built channel text reply nonce =
    called client_nonce nonce (called reply_to reply (privmsg channel text))
