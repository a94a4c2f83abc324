-- ===== src/Normalize.antt =====
-- src/tickstream/producer/normalize.py: raw exchange messages to lists of events and rejects.
pub mod Timestamp
pub mod Record
pub mod Coinbase
pub mod BinanceUs
pub mod Dispatch
pub mod Isolation
pub mod Accepted
pub mod Provenance
pub mod Contract
pub mod Escapes
pub mod Truncation
pub mod Symbols
