-- ===== src/Raknet.antt =====
-- crates/raknet: packets, connections and the server.
pub mod Packet
pub mod Connection
pub mod Server
mod Tests
