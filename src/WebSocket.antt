-- ===== src/WebSocket.antt =====
-- The one-shot websocket client of app/ws_shim.c.
pub mod Socket
pub mod Frame
pub mod SendText
pub mod Bounds
pub mod RoundTrip
pub mod Messages
pub mod Query
pub mod Compact
pub mod Lines
pub mod Collect
pub mod Fetch
pub mod Whole
