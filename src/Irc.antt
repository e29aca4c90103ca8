-- ===== src/Irc.antt =====
-- irc.rs and irc/: the parser of one line of IRC.
pub mod Span
pub mod Command
pub mod Prefix
pub mod Channel
pub mod Tag
pub mod Wide
pub mod Tags
pub mod Simd
pub mod Message
pub mod Escape
