-- ===== src/Wal.antt =====
-- src/wal.cpp: the write-ahead log.
pub mod Types
pub mod Bytes
pub mod Stage
pub mod Payload
pub mod Frame
pub mod Scan
pub mod Storage
pub mod Log
pub mod Tests
