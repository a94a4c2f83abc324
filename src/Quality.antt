-- ===== src/Quality.antt =====
-- src/tickstream/quality/: the data contract with the records out of order, the quarantine sink, the
-- SLA report.
pub mod OutOfOrder
pub mod Landing
pub mod Sla
pub mod Contract
