-- ===== src/Ioctl.antt =====
-- `scull_ioctl` of scull/ioctl.c, which the memory device and the pipe device share.
pub mod Handler
pub mod Laws
