-- ===== src/Archive.antt =====
-- The archive helper, app/archive.c: its bounded output.
pub mod Output
pub mod Read
pub mod Bounds
pub mod Accepted
