-- ===== src/Lib.antt =====
-- tmi-rs: a model of the IRC line parser of a Twitch chat client, of its typed messages, and of the
-- client.
--
-- A line goes through four parsers that hand on a position: the tags, the prefix, the command, and
-- the channel with the params. Each keeps spans of the line, 32-bit or shorter, which the accessors
-- of a message cut out of the line again. A typed message reads a parsed line through the accessors.
-- The client writes messages through a scratch buffer, logs in on a connection, where it reads two
-- parsed lines, and connects again after it is lost.
--
-- Str models Rust's `str` as the list of its UTF-8 bytes: `find`, `strip_prefix`,
--   `split_whitespace`, and the slices, which panic out of range and off a character boundary.
--   Str.Split holds `split`, `split_once` and the like, and Str.Numbers `parse` for the integers.
-- Irc.Span is src/common.rs: `Span`, whose ends are cut to 32 bits.
-- Irc.Command, Irc.Prefix and Irc.Channel are src/irc/command.rs, prefix.rs, and channel.rs with
--   params.rs.
-- Irc.Tag and Irc.Tags are src/irc/tags.rs: the names of tags, and the positions of a tag with
--   the array of at most 128 of them. Irc.Tags.Scalar is src/irc/tags/scalar.rs, and Irc.Simd,
--   Irc.Simd.Chunk and Irc.Simd.FindFirst are src/irc/tags/simd.rs.
-- Irc.Wide is src/irc/wide.rs. `Vector` is the interface that src/irc/tags/simd.rs uses, with its
--   laws in `IsVector`; Irc.Wide.X86 and Irc.Wide.Neon are the back ends, whose instructions are
--   written as arithmetic on the list of lanes.
-- Irc.Message is src/irc.rs: the parser of a line, and the accessors of a message.
--
-- Msg is src/msg.rs and src/msg/, a module for each message: Msg.Badge and Msg.Fields are what
--   src/msg.rs shares, Msg.Membership is join.rs and part.rs, Msg.Ping is ping.rs and pong.rs,
--   Msg.UserState is user_state.rs and global_user_state.rs, Msg.Privmsg and Msg.PinnedChat are
--   privmsg.rs, Msg.UserNotice and Msg.Event are user_notice.rs, and Msg.Typed is the enum
--   `Message` with `from_irc`. A function that gives an option and calls an accessor is an
--   `Attempt`, whose `do` is the operator `?`. chrono's `timestamp_millis_opt` is a parameter.
-- Msg.Line is about lines that are put together from their parts. Irc.Message.Whole writes a line of
--   which every part but the command may be missing, and Irc.Message.Line one with all of them.
--   `Means` in Msg.Line.Meanings says which typed message a line of a channel means, with the events
--   of a notice in Msg.Line.Events, the reply and the pinned message of a chat message in
--   Msg.Line.Replies, bans, timeouts and deletions in Msg.Line.Moderation, and joins, parts and the
--   states of users and rooms in Msg.Line.Members; `MeansAnywhere` in Msg.Line.Anywhere adds the
--   lines that name no channel, which Msg.Line.Server holds. What one value says is described
--   without the code that reads it: the badges in Msg.Badge.Listed, badges and the mode for followers
--   on the tags in Msg.Line.Values, and actions, streaks, promotions and anonymous gifts in
--   Msg.Line.Said. Numbers, times, flags, levels and lists of emote sets are given by the code's own
--   readers of one value.
-- Irc.Escape is `unescape` of src/irc.rs and `maybe_unescape` of src/lib.rs, over characters.
-- Client.Write is src/client/write.rs and macros.rs with the `Join` of src/common.rs;
--   Client.Errors and Client.Handshake are the errors, `recv` and `handshake` of src/client.rs and
--   src/client/read.rs; Client.Reconnect is the loop of `reconnect` in src/client.rs, and
--   Client.Connect the first connection with its builder. The stream, the timer, TLS and the
--   opening of a connection are parameters of these, with no law assumed of them; Client.Tls is
--   src/client/conn.rs, which fills the last two, over the calls of rustls and tokio. Its only law is
--   `IsTimely`, that a timeout gives what it waits for or nothing. Client.Reconnect.Rounds has the
--   rounds of the loop of `reconnect` as a relation on its variables.
-- Client.Session is `recv` with `as_typed` of src/msg.rs, on the lines that a server sends.
-- ChannelName is src/common/channel.rs, which no other part uses.
--
-- What can panic, and loops whose end is not plain, return an `Outcome`: done, panicked, or
-- spinning where fuel runs out. Arithmetic on machine integers wraps, as it does in a release
-- build; the assertions of the loads panic, as they do in a debug build. The loops over chunks
-- have one unit of fuel more than the data has bytes, and the loop in a chunk one more than the
-- vector; the theorems on them give a result that is done, so the fuel is enough. The loop of
-- `reconnect` has one more than there are tries; without a bound on the tries it need not end. The
-- address of the data, on which aligned loads depend, is an argument.
--
-- Not modelled: the getters and `into_owned` of src/msg, which copy or unescape fields, and the
-- serde code that is derived; rustls and tokio, tracing, `Debug` output and error texts, and the
-- AVX-512 back end, which the build leaves out.
mod Prelude
pub mod Str
pub mod Irc
pub mod Msg
pub mod Client
mod ChannelName
mod Examples
