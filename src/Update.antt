-- ===== src/Update.antt =====
-- The policy of the AppImage updater, app/appimage_update_policy.h and
-- app/appimage_update_directory.h.
pub mod Version
pub mod Newer
pub mod Reads
pub mod Directory
