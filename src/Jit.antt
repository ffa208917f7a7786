-- ===== src/Jit.antt =====
-- The module of delays, jit/jit.c.
pub mod Delay
pub mod Timer
pub mod Tasklet
pub mod Laws
pub mod Alike
pub mod Clock
