-- ===== src/Speech.antt =====
-- The input of the speech helpers: app/speech_decode.h.
pub mod Input
