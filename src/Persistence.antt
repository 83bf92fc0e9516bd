-- ===== src/Persistence.antt =====
-- src/persistence/: the value codec, the session snapshot and the write-ahead log.
pub mod Codec
pub mod Session
pub mod Wal
mod Tests
