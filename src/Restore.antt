-- ===== src/Restore.antt =====
-- The restore values of the channels and the restore from the state file.
pub mod Values
pub mod ValueLaws
pub mod StateFile
pub mod Recovery
pub mod Handover
