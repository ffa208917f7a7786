-- ===== src/Pipe.antt =====
-- The scull driver's pipe device, scull/pipe.c and scull/pipe.h.
pub mod Device
pub mod Io
pub mod Ring
pub mod Transfer
pub mod Handlers
pub mod Calls
pub mod Open
pub mod Setup
pub mod Counts
pub mod History
pub mod Users
pub mod Sharing
pub mod Release
pub mod Closing
pub mod Sleepers
pub mod Wakeups
pub mod Waking
pub mod Stranded
pub mod Fifo
pub mod Shortage
