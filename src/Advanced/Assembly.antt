-- ===== src/Advanced/Assembly.antt =====
-- The reassembly of chunked messages (advanced_io.go, `consumeAdvancedChunk` and its helpers).
pub mod State
pub mod Chunk
pub mod Budget
pub mod Bounded
mod Tests
