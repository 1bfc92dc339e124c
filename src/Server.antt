-- ===== src/Server.antt =====
-- The server: include/server and src/server.
pub mod Env
pub mod Response
pub mod Auth
pub mod Entries
pub mod History
pub mod Overlay
pub mod Commands
pub mod Net
pub mod Images
pub mod Session
pub mod System
pub mod Listener
pub mod Startup
pub mod Soundness
