-- ===== src/Examples.antt =====
-- Concrete inputs at which the theorems about the drivers apply.
pub mod Base
pub mod Memory
pub mod Listings
pub mod Pipes
pub mod Control
pub mod Drivers
pub mod Delays
pub mod Lifetimes
pub mod Proc
pub mod Waiting
pub mod Mixing
pub mod Fifos
mod Sharing
