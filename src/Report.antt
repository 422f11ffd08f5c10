-- ===== src/Report.antt =====
-- The report on a bundle: ectest/internal/report.
pub mod Compare
pub mod Lines
pub mod Stored
pub mod Gates
pub mod Rebuild
