-- ===== src/Edu.antt =====
-- The driver of QEMU's edu device: its state (edu/state.h, edu/hw.h), its interrupt handlers
-- (edu/irq.c), its sysfs files (edu/sysfs.c), and its probe and removal (edu/init.c).
pub mod State
pub mod Irq
pub mod TestIrq
pub mod System
pub mod Sysfs
pub mod Release
pub mod Probe
pub mod Stopped
pub mod Attach
pub mod Detach
pub mod Watch
