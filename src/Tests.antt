-- ===== src/Tests.antt =====
-- Concrete runs of the development.
mod Handback
mod Reports
mod Writing
mod Running
mod Bundles
mod Sitting
mod Recomputing
mod Jobs
mod Storing
