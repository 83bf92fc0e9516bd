-- ===== src/Server.antt =====
-- src/server/: the connections of a shard.
pub mod Connection
pub mod Packets
pub mod Connect
pub mod Resume
pub mod Inbound
pub mod Run
