-- ===== src/Host.antt =====
-- internal/host: what a client of the server does.
pub mod Listing
pub mod Oauth
pub mod Events
pub mod Client
pub mod Compatibility
pub mod Tasks
pub mod Streams
pub mod Discovery
