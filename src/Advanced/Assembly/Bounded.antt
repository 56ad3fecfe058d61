-- ===== src/Advanced/Assembly/Bounded.antt =====
-- `consumeAdvancedChunk` keeps the accounts, on every frame that a peer can send.
use hqq.Advanced.Assembly.State.{Assembly}
