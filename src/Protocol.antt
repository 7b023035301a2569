-- ===== src/Protocol.antt =====
-- internal/protocol: the messages that client and server exchange.
pub mod Errors
pub mod Ids
pub mod Requests
pub mod Extensions
pub mod Tasks
