-- ===== src/Server.antt =====
-- crates/server: the session of a player, and the server that holds the sessions and the world.
pub mod Session
pub mod Main
pub mod Config
pub mod Console
mod Tests
