-- ===== src/Jiq.antt =====
-- The module of work queues, tasklets and timers, jiq/jiq.c.
pub mod Print
pub mod Files
pub mod Laws
pub mod Timer
pub mod Sharing
pub mod Queues
pub mod Lone
