-- ===== src/SharedMemory.antt =====
-- The memory that the interface shares with a helper: wn_ipc_read and wn_ipc_write of
-- app/helper_ipc.c.
pub mod Access
pub mod Words
