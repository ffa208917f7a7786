-- ===== src/Procfs.antt =====
-- The files below /proc of the modules jit/jit.c, jiq/jiq.c and scull/proc.c.
pub mod Tree
pub mod Entries
pub mod Laws
