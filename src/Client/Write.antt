-- ===== src/Client/Write.antt =====
-- client/write.rs and client/macros.rs: the messages that the client writes, and the `Join` of
-- common.rs. The stream behind `writer` is tokio's: `W` stands for it, `E` for its errors, and
-- `write_all` for its method, which gives an error or none.
pub mod Sent
pub mod Builder
pub mod ReadBack
pub mod Said
pub mod TagsReadBack
pub mod Answer
use tmi_rs.Prelude.{
  ◌-◌, Bool, true, false, ◌||◌, not, List, [], ◌∷◌, ◌++◌, Option, none, some, if◌then◌else◌, drop,
  length, map?,
}
use tmi_rs.Str.{Str, codes, eq, starts_with}

abbrev pub crlf : Str
crlf = 13 ∷ 10 ∷ []

-- `str::ends_with`
unfoldable pub ends_with : Str → Str → Bool
ends_with suffix s = eq (drop (length s - length suffix) s) suffix

-- `Display` of `Tag`
abbrev pub tag_text : Str → Str → Str
tag_text key value = key ++ b'=' ∷ value

-- `Display` of `Join`
abbrev pub join_items : Str → List Str → Str
join_items sep [] = []
join_items sep (item ∷ []) = item
join_items sep (item ∷ items) = item ++ (sep ++ join_items sep items)

abbrev pub option_list {ℓ} : {A : Type ℓ} → Option A → List A
option_list none = []
option_list (some a) = a ∷ []

pub is_some {ℓ} : {A : Type ℓ} → Option A → Bool
is_some none = false
is_some (some a) = true

-- The tags of `Privmsg::send`, with the `@` and the space.
pub privmsg_tags : Option Str → Option Str → Str
unfolding is_some
privmsg_tags reply_parent_msg_id client_nonce =
    let reply_tag = map? reply_parent_msg_id (tag_text (codes "reply-parent-msg-id")) in
    let nonce_tag = map? client_nonce (tag_text (codes "client-nonce")) in
    let tags = join_items (codes ";") (option_list reply_tag ++ option_list nonce_tag) in
    if is_some reply_parent_msg_id || is_some client_nonce then b'@' ∷ (tags ++ codes " ") else []

-- `Display` of `Channel`
unfoldable pub channel_text : Str → Str
channel_text channel = if not (starts_with (codes "#") channel) then b'#' ∷ channel else channel

-- The channels behind the first of `join_all`.
more_channels : List Str → Str
more_channels [] = []
more_channels (channel ∷ channels) = b',' ∷ (channel_text channel ++ more_channels channels)

pub all_channels : List Str → Str
unfolding more_channels
all_channels [] = []
all_channels (channel ∷ channels) = channel_text channel ++ more_channels channels

-- `Privmsg`, but for the client that it borrows.
pub record Privmsg : Type 0 where
  pub channel : Str
  pub text : Str
  pub reply_parent_msg_id : Option Str
  pub client_nonce : Option Str

-- The calls that send a message.
pub data Call : Type 0 where
  privmsg : Privmsg → Call
  ping : Str → Call
  pong : Option Str → Call
  join : Str → Call
  join_all : List Str → Call

-- What a call writes, but for the end of the line.
unfoldable pub body : Call → Str
unfolding privmsg_tags all_channels
body (privmsg p) =
    privmsg_tags p.reply_parent_msg_id p.client_nonce
    ++ (codes "PRIVMSG " ++ (p.channel ++ (codes " :" ++ p.text)))
body (ping nonce) = codes "PING :" ++ nonce
body (pong (some nonce)) = codes "PONG :" ++ nonce
body (pong none) = codes "PONG"
body (join channel) = codes "JOIN " ++ channel_text channel
body (join_all channels) = codes "JOIN " ++ all_channels channels

-- `SendError`. No code gives its `StreamClosed`.
pub data SendError (E : Type 0) : Type 0 where
  io : E → SendError E
  stream_closed invalid_message : SendError E

-- `Result<(), SendError>`
pub data Reply (E : Type 0) : Type 0 where
  ok : Reply E
  failed : SendError E → Reply E

-- The fields of `Client` that sending reads and writes.
pub record Client (W : Type 0) : Type 0 where
  pub writer : W
  pub scratch : Str

module _ {W E : Type 0} (write_all : W → Str → W × Option E) where
  -- The operator `?` on what the stream gives.
  abbrev pub io_reply : Option E → Reply E
  io_reply none = ok
  io_reply (some e) = failed (io e)

  -- `Client::send_raw`, with the check of `RawMessage::try_from`.
  unfoldable pub send_raw : Client W → Str → Client W × Reply E
  send_raw client data' =
      let (writer, error) = write_all client.writer data' in
      if ends_with crlf data'
      then (record client { writer = writer }, io_reply error)
      else (client, failed invalid_message)

  -- `with_scratch!`, around a body that writes `text` to the scratch buffer and sends the buffer.
  unfoldable pub with_scratch : Client W → Str → Client W × Reply E
  unfolding send_raw
  with_scratch client text =
      let (client', reply) = send_raw (record client { scratch = [] }) (client.scratch ++ text) in
      (record client' { scratch = [] }, reply)

  -- `Privmsg::send` and `Client::ping`, `pong`, `join`, `join_all`.
  unfoldable pub send : Client W → Call → Client W × Reply E
  unfolding with_scratch body
  send client call = with_scratch client (body call ++ crlf)

-- `SameMessageBypass`
pub record SameMessageBypass : Type 0 where
  pub append : Bool

-- A space and U+2800, in UTF-8.
abbrev pub bypass_suffix : Str
bypass_suffix = b' ' ∷ 0xe2 ∷ 0xa0 ∷ 0x80 ∷ []

unfoldable pub bypass : SameMessageBypass → Str × SameMessageBypass
bypass b = ((if b.append then bypass_suffix else []), record { append = not b.append })
