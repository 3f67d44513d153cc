-- ===== src/Helpers.antt =====
-- The launcher that starts the sandboxed helpers (app/helper_broker.c).
pub mod Freeze
pub mod Request
pub mod Supervise
pub mod Jobs
pub mod Transfer
pub mod Channel
