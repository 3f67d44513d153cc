-- ===== src/Fbx.antt =====
-- The FBX helper, app/fbx_helper.c: the message that describes a model.
pub mod Writer
pub mod Metadata
pub mod Measure
pub mod Passes
pub mod Whole
