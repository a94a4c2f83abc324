-- ===== src/Producer.antt =====
-- src/tickstream/producer/: the live producer, the replayer and the demo events, around the
-- normalizers.
pub mod Backoff
pub mod Exchanges
pub mod Publisher
pub mod Demo
pub mod Boundary
pub mod Service
pub mod Recording
pub mod Recorder
pub mod Replay
