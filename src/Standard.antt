-- ===== src/Standard.antt =====
-- The endpoint of a standard link (standard.go).
pub mod Remainder
