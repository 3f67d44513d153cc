-- ===== src/Decoder.antt =====
-- The decoder transport of app/decoder_ipc.h and app/decoder_ipc.c: the wire integers, the reply
-- buffer, the transfer loop over a socket, the requests, and the persistent model session.
pub mod Wire
pub mod Reply
pub mod Transfer
pub mod Process
pub mod Start
pub mod Build
pub mod Requests
pub mod Session
