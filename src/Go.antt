-- ===== src/Go.antt =====
-- The parts of Go's standard library that the program's own logic rests on.
pub mod Base64
pub mod Text
pub mod Search
pub mod Decimal
