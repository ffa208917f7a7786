-- ===== src/Scull.antt =====
-- The scull driver's memory device, scull/main.c, scull/scull.h and scull/proc.c.
pub mod Device
pub mod Io
pub mod Position
pub mod Places
pub mod Walk
pub mod Content
pub mod Overwrite
pub mod Write
pub mod Read
pub mod Shape
pub mod WriteLoop
pub mod Spares
pub mod Success
pub mod History
pub mod AsFile
pub mod Refine
pub mod ReadLoop
pub mod Trim
pub mod Proc
pub mod Listing
pub mod Setup
pub mod Loading
pub mod Unloading
pub mod Lifetime
pub mod Growth
pub mod Meminfo
pub mod Control
pub mod Resizing
