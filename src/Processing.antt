-- ===== src/Processing.antt =====
-- src/tickstream/processing/app.py: what the stream processor makes of one window's aggregates.
-- The windowing and the aggregations are those of the Quix library, which enters as an argument;
-- `iso` is the text of a time in milliseconds.
pub mod Finalize
pub mod Topology
pub mod Ticker
pub mod Trades
