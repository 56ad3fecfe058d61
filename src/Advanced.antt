-- ===== src/Advanced.antt =====
-- The advanced link (advanced*.go): its negotiation, chunked messages, their routes, and the calls and
-- streams that wait for them.
pub mod Flags
pub mod Meta
pub mod Assembly
pub mod Calls
pub mod Streams
pub mod Sender
pub mod Negotiation
pub mod Dispatch
