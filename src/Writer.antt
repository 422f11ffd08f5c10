-- ===== src/Writer.antt =====
-- The only path through which pwm attributes are written: ectest/internal/pwmw.
pub mod Device
pub mod Defs
pub mod Safety
pub mod Panics
pub mod Effect
