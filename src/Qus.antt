-- ===== src/Qus.antt =====
-- The driver of QEMU's USB storage, qus/qus.c and qus/qus.h.
pub mod Storage
pub mod Lifecycle
