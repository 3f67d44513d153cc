-- ===== src/Tools.antt =====
-- The broker that runs curl, notify-send and the file dialogs (app/tool_broker.c).
pub mod Environment
pub mod Request
pub mod Pump
pub mod Reply
pub mod Dialog
