-- ===== src/Msg.antt =====
-- msg.rs and msg/: the typed messages that a parsed line is turned into.
pub mod Attempt
pub mod Badge
pub mod Fields
pub mod RoomState
pub mod ClearChat
pub mod ClearMsg
pub mod Membership
pub mod Ping
pub mod Notice
pub mod Whisper
pub mod UserState
pub mod Privmsg
pub mod PinnedChat
pub mod Event
pub mod UserNotice
pub mod Typed
pub mod Line
