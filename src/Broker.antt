-- ===== src/Broker.antt =====
-- src/broker/: the data that moves between shards, connections and the disk.
pub mod Messages
pub mod Shard
pub mod Routing
pub mod Mesh
