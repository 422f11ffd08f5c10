-- ===== src/Regulator.antt =====
-- The check for other writers of pwm attributes: ectest/internal/regulator.
pub mod Expectation
pub mod Checker
