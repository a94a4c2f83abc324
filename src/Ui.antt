-- ===== src/Ui.antt =====
-- src/tickstream/ui/: the dashboard.
pub mod Dashboard
