-- ===== src/Client.antt =====
-- client.rs and client/: what the client writes, what it reads, and how it connects again.
pub mod Write
pub mod Errors
pub mod Handshake
pub mod Reconnect
pub mod Connect
pub mod Tls
pub mod Session
