-- ===== src/Lake.antt =====
-- src/tickstream/lake/: the sinks and the gold table.
pub mod Poll
pub mod Bronze
pub mod Windows
pub mod Iceberg
pub mod Marts
