-- ===== src/Tests.antt =====
-- Concrete runs of the code, and instances of the theorems.
mod Archive
mod Decoder
mod Fbx
mod Helpers
mod Location
mod Proxy
mod Sandbox
mod SharedMemory
mod Speech
mod Tools
mod Update
mod WebSocket
