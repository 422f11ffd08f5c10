-- ===== src/Driver.antt =====
-- The interface of the kernel driver: go/n5/n5driver.
pub mod State
pub mod Dump
