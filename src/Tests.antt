-- ===== src/Tests.antt =====
-- Concrete services, a cluster in memory, and each theorem at a concrete input.
pub mod Shelf
pub mod Matching
pub mod Memory
mod Services
mod Gang
mod Workloads
mod Passes
mod Cleanup
mod Panics
mod Manager
mod Models
mod Counts
mod Roles
mod Factory
pub mod LwsShelf
