-- ===== src/Mpmc.antt =====
-- internal/mpmc: the bounded multi-producer multi-consumer ring that both directions of a link use.
pub mod Layout
pub mod Ring
pub mod Threads
