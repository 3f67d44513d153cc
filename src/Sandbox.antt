-- ===== src/Sandbox.antt =====
-- The file system that the confined interface may see (app/main_sandbox.c).
pub mod Rules
pub mod Downloads
